-- ===== src/Tests/Format.antt =====
-- `%d` and `%q` on a few values.
use project_easter.Base.{◌≡◌, refl, false}
use project_easter.Base.Int.{pos, negsuc}
use project_easter.Base.Format.{decimal, quote}

decimal_of_positive : decimal (pos 1074) ≡ "1074"
unfolding decimal
decimal_of_positive = refl

decimal_of_negative : decimal (negsuc 119) ≡ "-120"
unfolding decimal
decimal_of_negative = refl

quote_of_quotes : quote (λ _. false) "a\"b\\" ≡ "\"a\\\"b\\\\\""
unfolding quote
quote_of_quotes = refl

quote_of_controls : quote (λ _. false) "\n\t" ≡ "\"\\n\\t\""
unfolding quote
quote_of_controls = refl
