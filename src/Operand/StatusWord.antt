-- ===== src/Operand/StatusWord.antt =====
-- The status word of `SST` and `LST`.
use tms32010_sv.Base.{ℕ, zero, suc, ◌<◌, ◌≡◌, refl, Bool, true, false, arith}
use tms32010_sv.Machine.{Status}
use tms32010_sv.Operand.{status_word, load_status}

-- A property of a bit.
two : (P : ℕ → Type 0) → P 0 → P 1 → (n : ℕ) → n < 2 → P n
two P p q zero h = p
two P p q (suc zero) h = q
two P p q (suc (suc n)) h = absurd (omega arith)

abbrev RoundTrip : Bool → Bool → Bool → ℕ → ℕ → Type 0
RoundTrip ov ovm intm arp dp =
    (r : Status)
    → load_status (status_word (record { ov = ov; ovm = ovm; intm = intm; arp = arp; dp = dp })) r
      ≡ record { ov = ov; ovm = ovm; intm = r.intm; arp = arp; dp = dp }

-- Each of the words, by its flags.
bits_trip :
    (ov ovm intm : Bool)
    → RoundTrip ov ovm intm 0 0
      × RoundTrip ov ovm intm 0 1
      × RoundTrip ov ovm intm 1 0
      × RoundTrip ov ovm intm 1 1
unfolding status_word load_status
bits_trip true true true = ((λ r. refl), (λ r. refl), (λ r. refl), (λ r. refl))
bits_trip true true false = ((λ r. refl), (λ r. refl), (λ r. refl), (λ r. refl))
bits_trip true false true = ((λ r. refl), (λ r. refl), (λ r. refl), (λ r. refl))
bits_trip true false false = ((λ r. refl), (λ r. refl), (λ r. refl), (λ r. refl))
bits_trip false true true = ((λ r. refl), (λ r. refl), (λ r. refl), (λ r. refl))
bits_trip false true false = ((λ r. refl), (λ r. refl), (λ r. refl), (λ r. refl))
bits_trip false false true = ((λ r. refl), (λ r. refl), (λ r. refl), (λ r. refl))
bits_trip false false false = ((λ r. refl), (λ r. refl), (λ r. refl), (λ r. refl))

-- With pointers of one bit, `LST` of the word that `SST` stored restores the overflow flag, the
-- overflow mode and both pointers, and leaves the interrupt mask as the later status has it.
pub load_status-status_word :
    (s r : Status)
    → s.arp < 2
    → s.dp < 2
    → load_status (status_word s) r ≡ record s { intm = r.intm }
load_status-status_word s r arp_fits dp_fits =
    let trip = bits_trip s.ov s.ovm s.intm in
    two (λ arp. RoundTrip s.ov s.ovm s.intm arp s.dp)
      (two (λ dp. RoundTrip s.ov s.ovm s.intm 0 dp) trip.0 trip.1 s.dp dp_fits)
      (two (λ dp. RoundTrip s.ov s.ovm s.intm 1 dp) trip.2 trip.3 s.dp dp_fits) s.arp arp_fits r
