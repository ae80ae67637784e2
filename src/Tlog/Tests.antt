-- ===== src/Tlog/Tests.antt =====
-- internal/tlog/epoch.go: three claims on one directory.
use behalf.Prelude.{
  ℕ, ◌+◌, ◌^◌, ◌<◌, ◌≡◌, refl, true, false, some, List, [], ◌∷◌, arith, length, get_elem?, codes,
}
use behalf.Tlog.Epoch.{
  Claim, absent, claim_all, claim_epoch, claim_from, next_record, write_epoch, add_holder,
  read_epoch, check_epoch, epoch_of, check_epoch-latest,
}

program : Unit {0}
unfolding claim_all claim_epoch claim_from next_record write_epoch add_holder read_epoch check_epoch
    epoch_of
program = tt

abbrev claim : ℕ → Claim
claim process = record { pid = process; at = codes "t"; locked = true; written = true }

abbrev claims : List Claim
claims = claim 3 ∷ record (claim 2) { written = false } ∷ claim 1 ∷ []

holders : (claim_all absent claims).1 ≡ 2 ∷ 1 ∷ []
unfolding program
holders = refl

newest : get_elem? (claim_all absent claims).1 0 ≡ some 2
unfolding program
newest = refl

newest_passes : check_epoch (claim_all absent claims).0 2 ≡ true
unfolding program
newest_passes = refl

older_fenced : check_epoch (claim_all absent claims).0 1 ≡ false
unfolding program
older_fenced = refl

few : epoch_of absent + length claims < 2 ^ 64
unfolding program
few = omega arith

abbrev place : ℕ
place = 0

check_epoch-latest_example : place ≡ 0
check_epoch-latest_example = check_epoch-latest absent claims place 2 few newest newest_passes
