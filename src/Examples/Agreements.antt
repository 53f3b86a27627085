-- ===== src/Examples/Agreements.antt =====
-- Agreements: a table that holds one row, and the round trip at that agreement.
use run_dsp.Prelude.{
  String, ◌≡◌, refl, true, Option, none, some, str_eq, str_eq_self, if◌then◌else◌,
}
use run_dsp.Exec.{ok}
use run_dsp.Contract.Model.{AgreementRow}
use run_dsp.Sqlite.Agreements.{
  AgreementTable, IsTable, put_agreement, get_agreement, put_agreement-get_agreement,
}
use run_dsp.Examples.World.{world, read_unary}
use run_dsp.Examples.AgreementText.{signed, agreement_on}
use run_dsp.Examples.Storing.{json, json-IsJson, agreement_row, writes_agreement_row}

abbrev find : String → Option AgreementRow → Option AgreementRow
find id none = none
find id (some r) = if str_eq r.id id then some r else none

abbrev table : AgreementTable
table = record { Db = Option AgreementRow; insert = λ r d. (true, some r); select = find }

find_self : (r : AgreementRow) → find r.id (some r) ≡ some r
find_self r = rw (str_eq_self r.id)

table-IsTable : IsTable table
table-IsTable = record { select-insert = λ r d h. cc (h, find_self r) }

abbrev kept : AgreementRow
kept = agreement_row

puts_agreement : put_agreement world json table signed none ≡ (ok tt, some kept)
unfolding put_agreement
puts_agreement = rw (writes_agreement_row) refl

put_agreement-get_agreement_example :
    get_agreement world json table (some 3) (some kept) ≡ ok (agreement_on "urn:uuid:7")
unfolding read_unary agreement_on
put_agreement-get_agreement_example =
    put_agreement-get_agreement world json json-IsJson table table-IsTable signed 3 none refl
      puts_agreement
