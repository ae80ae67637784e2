-- ===== src/Witness/Note.antt =====
-- internal/witness: the origin line and the body of a checkpoint note (witness.go, protocol.go).
use behalf.Prelude.{
  ℕ, ◌<◌, ◌≡◌, refl, subst, inl, inr, Bool, true, false, not, ◌&&◌, ◌||◌, Option, none, some, List,
  [], ◌∷◌, arith, ltb, ◌==◌, if◌then◌else◌, ==_iff, Bool-cases, length, All, Bytes,
}
use behalf.Encoding.Base64
use behalf.Encoding.Text.{split_line, split_lines, parse_uint}
use behalf.Witness.Head.{Head, IsHash, Result, ok, err, malformed_checkpoint}

-- The runes below 0x20 and 0x7f are one byte each in UTF-8, so the test reads bytes.
unfoldable pub is_print : Bytes → Bool
is_print [] = true
is_print (r ∷ s) = not (ltb r 0x20 || r == 0x7f) && is_print s

has_blank : Bytes → Bool
has_blank [] = false
has_blank (c ∷ s) = c == b' ' || c == 9 || has_blank s

checked_origin : Bytes × Option Bytes → Result Bytes
checked_origin (line, none) = err malformed_checkpoint
checked_origin ([], some rest) = err malformed_checkpoint
checked_origin (c ∷ line, some rest) =
    if has_blank (c ∷ line) || not (is_print (c ∷ line))
    then err malformed_checkpoint
    else ok (c ∷ line)

-- `bytes.IndexByte(checkpoint, '\n')` not above 0 is an empty first line, or no line feed.
unfoldable pub origin_line : Bytes → Result Bytes
unfolding checked_origin has_blank is_print
origin_line checkpoint = checked_origin (split_line checkpoint)

root_of : ℕ → Option Bytes → Result Head
root_of size none = err malformed_checkpoint
root_of size (some root) =
    if length root == 32 then ok (record { size = size; root = root }) else err malformed_checkpoint

size_of : Option ℕ → Bytes → Result Head
unfolding root_of
size_of none root = err malformed_checkpoint
size_of (some size) root = root_of size (Base64.decode root)

body_lines : List Bytes → Result Head
unfolding size_of
body_lines (origin ∷ size ∷ root ∷ rest) = size_of (parse_uint size) root
body_lines _ = err malformed_checkpoint

-- The second line of the text is the tree size, the third the root in base64.
unfoldable pub parse_body : Bytes → Result Head
unfolding body_lines
parse_body text = body_lines (split_lines text)

root_of-IsHash :
    (size : ℕ) (o : Option Bytes) (h : Head)
    → ((bs : Bytes) → o ≡ some bs → All (λ b. b < 256) bs)
    → root_of size o ≡ ok h
    → IsHash h.root
unfolding root_of
root_of-IsHash size none h bytes e = cc
root_of-IsHash size (some root) h bytes e = elim (Bool-cases (length root == 32)) [
  | inl wide ↦
      let same : root ≡ h.root = ground arith in
      subst IsHash same (record { width = (==_iff _ 32).0 wide; bytes = bytes root refl })
  | inr other ↦ absurd (ground arith)
]

size_of-IsHash : (o : Option ℕ) (root : Bytes) (h : Head) → size_of o root ≡ ok h → IsHash h.root
size_of-IsHash none root h e = unfold size_of in cc
size_of-IsHash (some size) root h e =
    root_of-IsHash size (Base64.decode root) h (λ bs d. Base64.All-decode root bs d)
      (unfold size_of in e)

body_lines-IsHash : (lines : List Bytes) (h : Head) → body_lines lines ≡ ok h → IsHash h.root
body_lines-IsHash [] h e = unfold body_lines in cc
body_lines-IsHash (a ∷ []) h e = unfold body_lines in cc
body_lines-IsHash (a ∷ b ∷ []) h e = unfold body_lines in cc
body_lines-IsHash (a ∷ b ∷ c ∷ rest) h e =
    size_of-IsHash (parse_uint b) c h (unfold body_lines in e)

-- A body that parses names a root of 32 bytes.
pub parse_body-IsHash : (text : Bytes) (h : Head) → parse_body text ≡ ok h → IsHash h.root
parse_body-IsHash text h e = body_lines-IsHash (split_lines text) h (unfold parse_body in e)
