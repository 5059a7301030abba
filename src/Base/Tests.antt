-- ===== src/Base/Tests.antt =====
-- Runs of framework/base on small inputs.
use thread_library.Prelude.{ℕ, true, List, take, some, [], ◌∷◌, ◌≡◌, refl, arith}
use thread_library.Prelude.Int.{negsuc}
use thread_library.Base.Convert.{convert}
use thread_library.Base.Convert.Digits.{read_decimal, read_decimal-convert}
use thread_library.Base.ReadFile.{
  ReadFile, Answer, up_to, success, regular, check_string, check_byte, read_to_string, read_to_byte,
}
use thread_library.Prelude.Outcome.{ok}
use thread_library.Base.ReadFile.Loops.{Fills, read_to_string_lem, read_to_byte-Fills}

prints_negative : convert (negsuc 41) ≡ b'-' ∷ b'4' ∷ b'2' ∷ []
unfolding convert
prints_negative = refl

read_decimal-convert_example : read_decimal (convert (negsuc 41)) ≡ negsuc 41
read_decimal-convert_example = read_decimal-convert (negsuc 41) (omega arith)

abbrev two_at_once : ℕ → Answer
two_at_once k = up_to 1

abbrev log_file : ReadFile
log_file = record {
  fd = some 3;
  stat = some (record { kind = regular; size = 5; modified = 0; created = 0 });
}

abbrev content : List ℕ
content = 1 ∷ 2 ∷ 3 ∷ 4 ∷ 5 ∷ []

read_to_string_example :
    read_to_string 9 two_at_once true true content log_file 3
    ≡ some (
        ok (elim (check_string log_file) [
          | success ↦ (success, take 3 content)
          | other ↦ (other, [])
        ]))
read_to_string_example =
    read_to_string_lem 9 two_at_once true content log_file 3 (λ k. (1, refl)) (omega arith)
      (omega arith) (omega arith)

read_to_byte_example : Fills (take 3 content) (read_to_byte 9 two_at_once content log_file 3)
unfolding check_byte
read_to_byte_example =
    read_to_byte-Fills 9 two_at_once content log_file 3 refl (λ k. (1, refl)) (omega arith)
      (omega arith)
