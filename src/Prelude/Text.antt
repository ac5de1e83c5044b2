-- ===== src/Prelude/Text.antt =====
-- Texts as lists of code points.
use Prim.Native.Nat.{ℕ, ◌+◌}
use Prim.Native.Char.{code}
use Prim.Native.String.{String}
use mathlib.Core.Path.{◌≡◌, refl}
use native.Mathlib.Omega.{arith}
use mathlib.Core.Bool.{Bool, true, false, ◌||◌, ◌&&◌}
use mathlib.Core.List.{List, [], ◌∷◌, reverse}
use verity_backend.Prelude.Tests.{◌==◌, leb, if◌then◌else◌}

abbrev pub codes : String → List ℕ
codes String.[] = []
codes (String.◌∷◌ c s) = code c ∷ codes s

-- The white space and line ends that `trim` removes.
abbrev pub is_space : ℕ → Bool
is_space c =
    c == 32
    || (leb 9 c && leb c 13)
    || c == 160
    || c == 5760
    || (leb 8192 c && leb c 8202)
    || (leb 8232 c && leb c 8233)
    || c == 8239
    || c == 8287
    || c == 12288
    || c == 65279

abbrev pub drop_spaces : List ℕ → List ℕ
drop_spaces [] = []
drop_spaces (c ∷ cs) = if is_space c then drop_spaces cs else c ∷ cs

abbrev pub trim : List ℕ → List ℕ
trim cs = reverse (drop_spaces (reverse (drop_spaces cs)))

abbrev pub same_text : List ℕ → List ℕ → Bool
same_text [] [] = true
same_text (c ∷ cs) (d ∷ ds) = c == d && same_text cs ds
same_text _ _ = false

pub same_text_refl : (cs : List ℕ) → same_text cs cs ≡ true
same_text_refl [] = refl
same_text_refl (c ∷ cs) = ground (arith, same_text_refl cs)

pub same_text→≡ : (cs ds : List ℕ) → same_text cs ds ≡ true → cs ≡ ds
same_text→≡ [] [] h = refl
same_text→≡ [] (d ∷ ds) h = ground arith
same_text→≡ (c ∷ cs) [] h = ground arith
same_text→≡ (c ∷ cs) (d ∷ ds) h =
    let same : c ≡ d = ground arith in
    let rest : same_text cs ds ≡ true = ground arith in λ i. same i ∷ same_text→≡ cs ds rest i

-- `text.length`, in UTF-16 units
abbrev pub text_length : List ℕ → ℕ
text_length [] = 0
text_length (c ∷ cs) = (if leb 65536 c then 2 else 1) + text_length cs
