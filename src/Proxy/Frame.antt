-- ===== src/Proxy/Frame.antt =====
-- internal/proxy/jsonrpc.go: the terminator of a line, and what routing reads of a message.
use behalf.Prelude.{
  ℕ, zero, suc, ◌-◌, ◌≡◌, refl, ap, ◌∙◌, ◌≢◌, ◌⊎◌, inl, inr, Bool, true, false, not, ◌&&◌, ◌||◌,
  Option, none, some, List, [], ◌∷◌, ◌++◌, append-nil, arith, ltb, ◌==◌, if◌then◌else◌, length,
  take, drop, take-append-drop, get_or, Bytes, codes, eqb, eqb_iff,
}
use behalf.Aat.Hop.{is_set}

pub record Frame : Type 0 where
  pub body : Bytes
  pub term : Bytes

unfoldable pub cut_at : ℕ → Bytes → Frame
cut_at k line = record { body = take k line; term = drop k line }

-- `splitFrame`.
unfoldable pub split_frame : Bytes → Frame
unfolding cut_at
split_frame line =
    let n = length line in
    if ltb 0 n && get_or line (n - 1) 0 == 10
    then (if ltb 1 n && get_or line (n - 2) 0 == 13
        then cut_at (n - 2) line
        else cut_at (n - 1) line)
    else record { body = line; term = [] }

pub record Message : Type 0 where
  pub object : Bool
  pub method : Bytes
  pub id_span : Bytes
  pub has_id : Bool
  pub has_result : Bool
  pub has_error : Bool

abbrev pub no_message : Message
no_message = record {
  object = false;
  method = [];
  id_span = [];
  has_id = false;
  has_result = false;
  has_error = false;
}

-- A top-level member of a JSON object: its name and the bytes of its value.
pub record Field : Type 0 where
  pub name : Bytes
  pub span : Bytes

unfoldable pub set_method : Message → Option Bytes → Message
set_method m none = m
set_method m (some s) = record m { method = s }

-- `unmarshal_string` is encoding/json on a string value.
module _ (unmarshal_string : Bytes → Option Bytes) where
  unfoldable pub read_field : Message → Field → Message
  unfolding set_method
  read_field m f =
      if eqb f.name (codes "method")
      then set_method m (unmarshal_string f.span)
      else if eqb f.name (codes "id")
      then record m { has_id = true; id_span = f.span }
      else if eqb f.name (codes "result")
      then record m { has_result = true }
      else if eqb f.name (codes "error")
      then record m { has_error = true }
      else m

  -- The loop of `parseMessage`, over the members of a line that is an object.
  unfoldable pub read_fields : Message → List Field → Message
  unfolding read_field
  read_fields m [] = m
  read_fields m (f ∷ fields) = read_fields (read_field m f) fields

  -- `parseMessage`; `none` is a line that is no object, or that does not scan.
  unfoldable pub parse_message : Option (List Field) → Message
  unfolding read_fields
  parse_message none = no_message
  parse_message (some fields) = read_fields (record no_message { object = true }) fields

unfoldable pub is_tools_call_request : Message → Bool
is_tools_call_request m = m.object && (eqb m.method (codes "tools/call") && m.has_id)

unfoldable pub is_response : Message → Bool
unfolding is_set
is_response m = m.object && (not (is_set m.method) && (m.has_id && (m.has_result || m.has_error)))

-- A frame of a line: nothing is lost, and the terminator is a line feed, with or without a carriage
-- return before it, or nothing on a line that ends without one.
pub record Framed (line : Bytes) (f : Frame) : Type 0 where
  pub whole : f.body ++ f.term ≡ line
  pub ended : (f.term ≡ 10 ∷ []) ⊎ (f.term ≡ 13 ∷ 10 ∷ []) ⊎ (f.term ≡ [])
  pub open_end : f.term ≡ [] → (length line ≡ 0) ⊎ (get_or line (length line - 1) 0 ≢ 10)

drop_last : (k : ℕ) (l : Bytes) → length l ≡ suc k → drop k l ≡ get_or l k 0 ∷ []
drop_last k [] e = absurd (omega arith)
drop_last zero (c ∷ []) e = refl
drop_last zero (c ∷ d ∷ l) e = absurd (omega arith)
drop_last (suc k) (c ∷ l) e = drop_last k l (omega arith)

drop_last_two :
    (k : ℕ) (l : Bytes) → length l ≡ suc (suc k) → drop k l ≡ get_or l k 0 ∷ get_or l (suc k) 0 ∷ []
drop_last_two k [] e = absurd (omega arith)
drop_last_two zero (c ∷ []) e = absurd (omega arith)
drop_last_two zero (c ∷ d ∷ []) e = refl
drop_last_two zero (c ∷ d ∷ x ∷ l) e = absurd (omega arith)
drop_last_two (suc k) (c ∷ l) e = drop_last_two k l (omega arith)

ends_lf : Bytes → Bool
ends_lf line = ltb 0 (length line) && get_or line (length line - 1) 0 == 10

ends_cr_lf : Bytes → Bool
ends_cr_lf line = ltb 1 (length line) && get_or line (length line - 2) 0 == 13

Framed-line :
    (line : Bytes) (lf cr : Bool)
    → ends_lf line ≡ lf
    → ends_cr_lf line ≡ cr
    → Framed line (
        if lf
        then (if cr then cut_at (length line - 2) line else cut_at (length line - 1) line)
        else record { body = line; term = [] })
unfolding cut_at ends_lf ends_cr_lf
Framed-line line false cr at_lf at_cr = record {
  whole = append-nil line;
  ended = inr (inr refl);
  open_end = λ e. ground arith;
}
Framed-line line true false at_lf at_cr = record {
  whole = take-append-drop (length line - 1) line;
  ended = inl term;
  open_end = λ e. absurd (cc (e, term));
}
  where
    last : get_or line (length line - 1) 0 ≡ 10
    last = ground arith

    term : drop (length line - 1) line ≡ 10 ∷ []
    term = drop_last (length line - 1) line (ground arith) ∙ ap (λ x. x ∷ []) last
Framed-line line true true at_lf at_cr = record {
  whole = take-append-drop (length line - 2) line;
  ended = inr (inl term);
  open_end = λ e. absurd (cc (e, term));
}
  where
    wide : length line ≡ suc (suc (length line - 2))
    wide = ground arith

    last : get_or line (suc (length line - 2)) 0 ≡ 10
    last =
        let place : suc (length line - 2) ≡ length line - 1 = omega (arith, wide) in
        let ten : get_or line (length line - 1) 0 ≡ 10 = ground arith in
        ap (λ k. get_or line k 0) place ∙ ten

    before_last : get_or line (length line - 2) 0 ≡ 13
    before_last = ground arith

    term : drop (length line - 2) line ≡ 13 ∷ 10 ∷ []
    term =
        drop_last_two (length line - 2) line wide
        ∙ ap (λ x. x ∷ get_or line (suc (length line - 2)) 0 ∷ []) before_last
        ∙ ap (λ x. 13 ∷ x ∷ []) last

-- Splitting a line loses nothing: the body and the terminator are the line again, the terminator is
-- a line feed, a carriage return with a line feed, or empty, and it is empty only on a line that
-- does not end with a line feed.
pub split_frame-Framed : (line : Bytes) → Framed line (split_frame line)
unfolding split_frame ends_lf ends_cr_lf
split_frame-Framed line = Framed-line line (ends_lf line) (ends_cr_lf line) refl refl

-- No message is routed both as a tools/call request and as a response.
pub is_tools_call_request-not_response :
    (m : Message) → is_tools_call_request m ≡ true → is_response m ≡ false
unfolding is_tools_call_request is_response is_set
is_tools_call_request-not_response m e =
    let is_call : eqb m.method (codes "tools/call") ≡ true = ground arith in
    let at : m.method ≡ codes "tools/call" = (eqb_iff m.method (codes "tools/call")).0 is_call in
    let named : is_set m.method ≡ true = ap is_set at in ground arith
