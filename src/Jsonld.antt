-- ===== src/Jsonld.antt =====
-- jsonld/context.go: the contexts of JSON-LD messages. A map is an association list.
use run_dsp.Prelude.{String, Option, none, some, List, [], ◌∷◌, str_eq, if◌then◌else◌}

pub record ContextEntry : Type 0 where
  pub id : String
  pub type : String

pub record Context : Type 0 where
  pub root_contexts : List ContextEntry
  pub named_contexts : List (String × ContextEntry)

unfoldable pub new_root_context : List ContextEntry → Context
new_root_context c = record { root_contexts = c; named_contexts = [] }

unfoldable pub new_named_context : List (String × ContextEntry) → Context
new_named_context c = record { root_contexts = []; named_contexts = c }

find_named : String → List (String × ContextEntry) → Option ContextEntry
find_named ns [] = none
find_named ns ((k, e) ∷ rest) = if str_eq k ns then some e else find_named ns rest

contexts_or : Option ContextEntry → List ContextEntry → List ContextEntry
contexts_or none roots = roots
contexts_or (some e) roots = e ∷ []

unfoldable pub get_contexts_for : Context → String → List ContextEntry
unfolding find_named contexts_or
get_contexts_for c ns = contexts_or (find_named ns c.named_contexts) c.root_contexts

unfoldable pub get_root_contexts : Context → List ContextEntry
get_root_contexts c = c.root_contexts

abbrev pub dsp_context : String
dsp_context = "https://w3id.org/dspace/2024/1/context.json"

-- `shared.GetDSPContext`
abbrev pub get_dsp_context : Context
get_dsp_context = record {
  root_contexts = record { id = dsp_context; type = "" } ∷ [];
  named_contexts = [];
}
