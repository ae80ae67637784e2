-- ===== src/Tlog/Epoch.antt =====
-- internal/tlog/epoch.go: the epoch file of a log directory. A claim runs under the lock of
-- epoch.lock, so the claims on one directory are a sequence.
use behalf.Prelude.{
  ℕ, zero, suc, ◌+◌, ◌-◌, ◌%◌, ◌≤◌, ◌<◌, ◌≡◌, sym, subst, Bool, true, false, Option, none, some,
  List, [], ◌∷◌, arith, ◌==◌, if◌then◌else◌, length, get_elem?, some_inj, Bytes,
}
use behalf.Encoding.Text.{uint64_mod}

pub record EpochRecord : Type 0 where
  pub epoch : ℕ
  pub pid : ℕ
  pub started_at : Bytes

pub data EpochFile : Type 0 where
  absent : EpochFile
  unreadable : EpochFile
  holds : EpochRecord → EpochFile

abbrev pub zero_record : EpochRecord
zero_record = record { epoch = 0; pid = 0; started_at = [] }

-- `ReadEpoch`; `none` is an error.
unfoldable pub read_epoch : EpochFile → Option EpochRecord
read_epoch absent = some zero_record
read_epoch unreadable = none
read_epoch (holds r) = some r

-- What one claim brings: its process, its time, and how the file system serves it.
pub record Claim : Type 0 where
  pub pid : ℕ
  pub at : Bytes
  pub locked : Bool
  pub written : Bool

unfoldable pub next_record : EpochRecord → Claim → EpochRecord
next_record cur c = record { epoch = (cur.epoch + 1) % uint64_mod; pid = c.pid; started_at = c.at }

-- `writeEpoch`: the file is replaced by a rename, or left as it is.
unfoldable pub write_epoch : EpochFile → EpochRecord → Bool → EpochFile × Option EpochRecord
write_epoch file r written = if written then (holds r, some r) else (file, none)

unfoldable pub claim_from : EpochFile → Option EpochRecord → Claim → EpochFile × Option EpochRecord
unfolding next_record write_epoch
claim_from file none c = (file, none)
claim_from file (some cur) c = write_epoch file (next_record cur c) c.written

-- `claimEpoch`.
unfoldable pub claim_epoch : EpochFile → Claim → EpochFile × Option EpochRecord
unfolding claim_from read_epoch
claim_epoch file c = if c.locked then claim_from file (read_epoch file) c else (file, none)

is_mine : ℕ → Option EpochRecord → Bool
is_mine mine none = false
is_mine mine (some cur) = cur.epoch == mine

-- `checkEpoch` returns no error.
unfoldable pub check_epoch : EpochFile → ℕ → Bool
unfolding is_mine read_epoch
check_epoch file mine = is_mine mine (read_epoch file)

unfoldable pub add_holder : Option EpochRecord → List ℕ → List ℕ
add_holder none holders = holders
add_holder (some r) holders = r.epoch ∷ holders

-- The file after some claims, of which the latest stands first, and the epochs of those that
-- succeeded, the latest first.
unfoldable pub claim_all : EpochFile → List Claim → EpochFile × List ℕ
unfolding claim_epoch add_holder
claim_all file [] = (file, [])
claim_all file (c ∷ claims) =
    let (f, holders) = claim_all file claims in
    let (f', r) = claim_epoch f c in (f', add_holder r holders)

unfoldable pub epoch_of : EpochFile → ℕ
epoch_of absent = 0
epoch_of unreadable = 0
epoch_of (holds r) = r.epoch

-- No holder is newer than the file, and each is newer than those before it.
Fenced : ℕ → List ℕ → Type 0
Fenced top [] = Unit
Fenced top (e ∷ holders) = (e ≤ top) × (1 ≤ e) × Fenced (e - 1) holders

Fenced-claim :
    (file : EpochFile) (c : Claim) (holders : List ℕ)
    → epoch_of file + 1 < uint64_mod
    → Fenced (epoch_of file) holders
    → (epoch_of (claim_epoch file c).0 ≤ epoch_of file + 1)
      × Fenced (epoch_of (claim_epoch file c).0) (add_holder (claim_epoch file c).1 holders)
unfolding claim_epoch claim_from read_epoch next_record write_epoch add_holder epoch_of Fenced
Fenced-claim file c holders lt h = go file c.locked c.written lt h
  where
    go :
        (f : EpochFile) (locked written : Bool)
        → epoch_of f + 1 < uint64_mod
        → Fenced (epoch_of f) holders
        → (epoch_of
              (if locked
                then claim_from f (read_epoch f) (record c { written = written })
                else (f, none)).0
            ≤ epoch_of f + 1)
          × Fenced
              (epoch_of
                (if locked
                  then claim_from f (read_epoch f) (record c { written = written })
                  else (f, none)).0)
              (add_holder
                (if locked
                  then claim_from f (read_epoch f) (record c { written = written })
                  else (f, none)).1
                holders)
    go f false written lt h = (omega arith, h)
    go unreadable true written lt h = (omega arith, h)
    go absent true true lt h = (omega arith, (omega arith, omega arith, h))
    go absent true false lt h = (omega arith, h)
    go (holds r) true true lt h =
        let next : (r.epoch + 1) % uint64_mod ≡ r.epoch + 1 = omega arith in
        let same : (r.epoch + 1) % uint64_mod - 1 ≡ r.epoch = omega (arith, next) in
        (
          omega (arith, next),
          (omega arith, omega (arith, next), subst (λ x. Fenced x holders) (sym same) h),
        )
    go (holds r) true false lt h = (omega arith, h)

Fenced-claim_all :
    (file : EpochFile) (claims : List Claim)
    → epoch_of file + length claims < uint64_mod
    → (epoch_of (claim_all file claims).0 ≤ epoch_of file + length claims)
      × Fenced (epoch_of (claim_all file claims).0) (claim_all file claims).1
unfolding claim_all
Fenced-claim_all file [] lt = (omega arith, unfold Fenced in tt)
Fenced-claim_all file (c ∷ claims) lt =
    let (le, h) = Fenced-claim_all file claims (omega arith) in
    let (le', h') =
      Fenced-claim (claim_all file claims).0 c (claim_all file claims).1 (omega arith) h in
    (omega arith, h')

Fenced-get_elem :
    (top : ℕ) (holders : List ℕ) (i mine : ℕ)
    → Fenced top holders
    → get_elem? holders i ≡ some mine
    → mine + i ≤ top
unfolding Fenced
Fenced-get_elem top [] i mine h e = absurd (cc e)
Fenced-get_elem top (x ∷ holders) zero mine h e = omega (arith, h.0, some_inj e)
Fenced-get_elem top (x ∷ holders) (suc i) mine h e =
    omega (arith, h.0, h.1, Fenced-get_elem (x - 1) holders i mine h.2 e)

check_epoch-epoch_of :
    (file : EpochFile) (mine : ℕ) → check_epoch file mine ≡ true → epoch_of file ≡ mine
unfolding check_epoch read_epoch epoch_of
check_epoch-epoch_of absent mine e = ground arith
check_epoch-epoch_of unreadable mine e = absurd (cc e)
check_epoch-epoch_of (holds r) mine e = ground arith

-- Of the handles that claimed one directory only the latest passes the check, while the counter
-- has not gone round its 64 bits.
pub check_epoch-latest :
    (file : EpochFile) (claims : List Claim) (i mine : ℕ)
    → epoch_of file + length claims < uint64_mod
    → get_elem? (claim_all file claims).1 i ≡ some mine
    → check_epoch (claim_all file claims).0 mine ≡ true
    → i ≡ 0
check_epoch-latest file claims i mine lt at e =
    let (le, h) = Fenced-claim_all file claims lt in
    omega (
      arith,
      Fenced-get_elem (epoch_of (claim_all file claims).0) (claim_all file claims).1 i mine h at,
      check_epoch-epoch_of (claim_all file claims).0 mine e,
    )
