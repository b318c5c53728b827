-- ===== src/App/Tests.antt =====
-- A concrete machine-readable zone.
mod Stream
use zegel.Common.{◌≡◌, refl, true, Option, some, arith}
use zegel.Common.Int.{pos}
use zegel.Common.Text.{Text, codes, to_upper_case}
use zegel.App.Mrz.{
  DateParts, MrzInput, fields_of, build_mrz, read_mrz_line2, char_value, check_digit, row_agrees,
  ladder_from_line2,
}
use zegel.App.Mrz.Printed.{read_mrz_line2-build_mrz}

abbrev date : Text → Option DateParts
date value = some (record { year = pos 2026; month = 2; day = 9 })

abbrev input : MrzInput
input = record {
  name = some (codes "jan.zegel.eth");
  reference_id = codes "0x1a2b3c4d5e6f";
  commitment = codes "0xffeeddccbbaa998877";
  record_from = codes "2026-03-09";
  expires_at = codes "2026-03-09";
  tier = 1;
}

abbrev line2 : Text
line2 = codes "ZGL1A2B3C8ENS2603091<2603091T1FFEEDDCCBBAA60"

-- The document number's check digit of ICAO Doc 9303's own example.
check_digit_icao : check_digit (codes "L898902C3") ≡ codes "6"
unfolding check_digit zegel.App.Mrz.weighted_sum
check_digit_icao = refl

read_mrz_line2-build_mrz_example :
    read_mrz_line2 (build_mrz to_upper_case date input).line2
    ≡ (some (fields_of to_upper_case date input), true)
read_mrz_line2-build_mrz_example =
    read_mrz_line2-build_mrz to_upper_case date input (omega arith) (omega arith)
