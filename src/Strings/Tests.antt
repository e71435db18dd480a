-- ===== src/Strings/Tests.antt =====
-- `LeadingWhitespace` at a concrete text.
use strawberry_os.Prelude.{ℕ, ◌==◌, if◌then◌else◌}
use strawberry_os.Strings.{leading_whitespace}
use strawberry_os.Strings.Trim.{IsTrimmed, IsStart, leading_whitespace_lem}

-- Two spaces, an A, two spaces, and characters that do not belong to the text.
abbrev text : ℕ → ℕ
text k = if k == 12 then 65 else if k == 15 then 66 else 32

leading_whitespace_lem_example :
    (m : ℕ) × IsTrimmed text 10 15 (leading_whitespace text 10 15).0 m
    × IsStart (leading_whitespace text 10 15).0 10 m (leading_whitespace text 10 15).1
leading_whitespace_lem_example = leading_whitespace_lem text 10 5
