-- ===== src/Database/Agreement/Fourth.antt =====
-- The comparison of the two decoders on the fourth quarter of the words.
use tms32010_sv.Base.{◌≡◌, refl, true}
use tms32010_sv.Isa.{mnemonic, decoded_operands}
use tms32010_sv.Decode.{decode}
use tms32010_sv.Database.{decode_entry, legal_matches}
use tms32010_sv.Database.Entries.{instructions}
use tms32010_sv.Database.Narrow.{narrow, rows}

pub fourth_quarter : rows 192 64 ≡ true
unfolding rows narrow decode legal_matches decode_entry instructions mnemonic decoded_operands
fourth_quarter = refl
