-- ===== src/Examples/Oids.antt =====
-- Object identifiers and URNs on concrete texts.
use Prim.Native.String.{◌++◌}
use run_dsp.Prelude.{pos, ◌≡◌, refl, none, some, [], ◌∷◌, arith}
use run_dsp.Extern.{Extern}
use run_dsp.Exec.{panicked}
use run_dsp.Oid.{Oid, parse, must_parse, urn}
use run_dsp.Oid.Arcs.{AllArcs, parse-AllArcs}
use run_dsp.Oid.Urns.{KeepsPlain, parse-urn}
use run_dsp.Shared.Ids.{id_to_urn, urn_to_raw_id}
use run_dsp.Shared.Urns.{LowersUrns, plain_id, id_to_urn_twice, urn_to_raw_id-id_to_urn}
use run_dsp.Examples.World.{world, unary, read_unary}

-- A UUID's URN with its namespace.
abbrev urn_world : Extern
urn_world = record world { urn = λ n. "urn:uuid:" ++ unary n }

world-KeepsPlain : KeepsPlain world
world-KeepsPlain = record { lower_plain = λ s h. refl }

urn_world-LowersUrns : LowersUrns urn_world
urn_world-LowersUrns = record { lower_urn_prefix = λ s. refl; urn_text = λ u. refl }

abbrev dotted : Oid
dotted = pos 2 ∷ (pos 999 ∷ (pos 0 ∷ []))

parsed : parse world "urn:oid:2.999.0" ≡ some dotted
unfolding parse
parsed = refl

printed : urn dotted ≡ "urn:oid:2.999.0"
unfolding urn
printed = refl

too_large : parse world "1.9223372036854775808" ≡ none
unfolding parse
too_large = refl

empty_arc : parse world "1..2" ≡ none
unfolding parse
empty_arc = refl

-- Three digits and no dot are an identifier of one arc, whose URN has no leading zeros.
one_arc : parse world "007" ≡ some (pos 7 ∷ [])
unfolding parse
one_arc = refl

one_arc_refused : parse world "urn:oid:7" ≡ none
unfolding parse
one_arc_refused = refl

panics : must_parse world "x" ≡ panicked
unfolding must_parse
panics = refl

leading_zeros : id_to_urn urn_world "007" ≡ "urn:oid:7"
unfolding id_to_urn read_unary parse urn
leading_zeros = refl

parse-AllArcs_example : AllArcs dotted
parse-AllArcs_example = parse-AllArcs world "urn:oid:2.999.0" dotted parsed

parse-urn_example : parse world (urn dotted) ≡ some dotted
parse-urn_example =
    parse-urn world world-KeepsPlain dotted (omega arith, (omega arith, (omega arith, tt)))
      (omega arith)

urn_to_raw_id-id_to_urn_example :
    urn_to_raw_id urn_world (id_to_urn urn_world "1.02")
    ≡ some (plain_id urn_world urn_world-LowersUrns "1.02" none)
unfolding read_unary
urn_to_raw_id-id_to_urn_example = urn_to_raw_id-id_to_urn urn_world urn_world-LowersUrns "1.02" refl

id_to_urn_twice_example :
    id_to_urn urn_world (id_to_urn urn_world "dataset") ≡ id_to_urn urn_world "dataset"
id_to_urn_twice_example = id_to_urn_twice urn_world urn_world-LowersUrns "dataset"
