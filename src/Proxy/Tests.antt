-- ===== src/Proxy/Tests.antt =====
-- internal/proxy: lines and a small policy.
use behalf.Prelude.{◌≡◌, refl, ◌≢◌, Bool, true, false, Option, some, [], ◌∷◌, Bytes, codes, eqb}
use behalf.Aat.Hop.{is_set}
use behalf.Proxy.Frame.{
  Framed, Message, split_frame, cut_at, parse_message, read_fields, read_field, set_method,
  is_tools_call_request, is_response, split_frame-Framed, is_tools_call_request-not_response,
}
use behalf.Proxy.Policy.{
  Rule, Policy, policy, parse_policy, first_error, with_default, checked, match_rule, classify,
  classify-class, classify-first,
}

program : Unit {0}
unfolding split_frame cut_at parse_message read_fields read_field set_method is_tools_call_request
    is_response is_set parse_policy first_error with_default checked match_rule classify eqb
program = tt

abbrev line : Bytes
line = codes "{}\r\n"

crlf : split_frame line ≡ record { body = codes "{}"; term = codes "\r\n" }
unfolding program
crlf = refl

split_frame-Framed_example : Framed line (split_frame line)
split_frame-Framed_example = split_frame-Framed line

abbrev unquoted : Bytes → Option Bytes
unquoted s = some s

abbrev call : Message
call = parse_message unquoted (
    some (
      record { name = codes "id"; span = codes "1" }
      ∷ record { name = codes "method"; span = codes "tools/call" }
      ∷ []))

is_call : is_tools_call_request call ≡ true
unfolding program
is_call = refl

is_tools_call_request-not_response_example : is_response call ≡ false
is_tools_call_request-not_response_example = is_tools_call_request-not_response call is_call

-- A pattern is the name itself.
abbrev same_name : Bytes → Bytes → Option Bool
same_name pattern tool = some (eqb pattern tool)

abbrev rule_of : Bytes → Bytes → Rule
rule_of pattern risk = record {
  pattern = pattern;
  risk = risk;
  target_arg = [];
  outcome_fields = [];
}

abbrev decoded : Policy
decoded = record { version = []; default = []; rules = rule_of (codes "pay") (codes "high") ∷ [] }

abbrev read : Policy
read = record decoded { default = codes "low" }

parsed : parse_policy same_name (some decoded) ≡ policy read
unfolding program
parsed = refl

classify-class_example : is_set (classify same_name read (codes "see")).0 ≡ true
classify-class_example = classify-class same_name (some decoded) read (codes "see") parsed

other_name : same_name (codes "see") (codes "pay") ≢ some true
unfolding program
other_name e = cc e

own_name : same_name (codes "pay") (codes "pay") ≡ some true
unfolding program
own_name = refl

abbrev three : Policy
three = record read {
  rules =
      rule_of (codes "see") (codes "low")
      ∷ rule_of (codes "pay") (codes "high")
      ∷ rule_of (codes "pay") (codes "low")
      ∷ [];
}

classify-first_example : classify same_name three (codes "pay") ≡ (codes "high", [])
classify-first_example =
    classify-first same_name three (rule_of (codes "see") (codes "low") ∷ [])
      (rule_of (codes "pay") (codes "low") ∷ []) (rule_of (codes "pay") (codes "high"))
      (codes "pay") refl (other_name, tt) own_name
