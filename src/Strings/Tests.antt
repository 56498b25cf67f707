-- ===== src/Strings/Tests.antt =====
-- The theorems on strings at small ones.
use bitloader.Prelude.{List, [], arith, refl, suc, ℕ, ◌↔◌, ◌∷◌, ◌≡◌, ◌≢◌}
use bitloader.Prelude.Int.{pos, ℤ}
use bitloader.Prelude.Run.{returns}
use bitloader.Strings.{literal, strcmp, strlen, strlen_loop, strstr, strstr_loop}
use bitloader.Strings.Compare.{IsString, strcmp-zero}

abbrev quit : List ℕ
quit = b'q' ∷ b'u' ∷ b'i' ∷ b't' ∷ []

abbrev quick : List ℕ
quick = b'q' ∷ b'u' ∷ b'i' ∷ b'c' ∷ b'k' ∷ []

nonzero : (n : ℕ) → suc n ≢ 0
nonzero n e = absurd (omega (arith, e))

quit-IsString : IsString (literal quit) 0 quit
quit-IsString =
    (refl, nonzero 112, (refl, nonzero 116, (refl, nonzero 104, (refl, nonzero 115, refl))))

quick-IsString : IsString (literal quick) 0 quick
quick-IsString = (
  refl,
  nonzero 112,
  (refl, nonzero 116, (refl, nonzero 104, (refl, nonzero 98, (refl, nonzero 106, refl)))),
)

strcmp-zero_example :
    (result : ℤ) × (strcmp 10 (literal quit) 0 (literal quick) 0 ≡ returns result)
    × (result ≡ pos 0 ↔ quit ≡ quick)
strcmp-zero_example =
    strcmp-zero 10 (literal quit) 0 (literal quick) 0 quit quick quit-IsString quick-IsString
      (omega arith)

-- `strstr` finds only an ending: "ab" is not found in "xaby".
strstr_inside :
    strstr 10 (literal (b'x' ∷ b'a' ∷ b'b' ∷ b'y' ∷ [])) (literal (b'a' ∷ b'b' ∷ [])) ≡ returns 0
unfolding strstr strstr_loop strlen strlen_loop strcmp
strstr_inside = refl

strstr_ending :
    strstr 10 (literal (b'x' ∷ b'y' ∷ b'a' ∷ b'b' ∷ [])) (literal (b'a' ∷ b'b' ∷ [])) ≡ returns 2
unfolding strstr strstr_loop strlen strlen_loop strcmp
strstr_ending = refl
