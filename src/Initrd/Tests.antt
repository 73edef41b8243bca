-- ===== src/Initrd/Tests.antt =====
-- The theorems on kernel/lib/initrd/src/lib.rs at an archive of one member.
use nexo_os.Prelude.{ℕ, ◌≡◌, Bool, true, List, [], ◌∷◌, ◌++◌, some, ok, err, replicate, refl}
use nexo_os.Initrd.{Initrd, magic, parse, find, truncated}
use nexo_os.Initrd.Laws.{IsParsed, parse-IsParsed, Finds, find-Finds}

abbrev any_text : List ℕ → Bool
any_text xs = true

-- One member "a" with the contents 7, 8.
abbrev archive : List ℕ
archive =
    magic
    ++ (1 ∷ 0 ∷ 0 ∷ 0 ∷ 0 ∷ 0 ∷ 0 ∷ 0 ∷ 97 ∷ [])
    ++ replicate 31 0
    ++ (64 ∷ 0 ∷ 0 ∷ 0 ∷ 0 ∷ 0 ∷ 0 ∷ 0 ∷ 2 ∷ 0 ∷ 0 ∷ 0 ∷ 0 ∷ 0 ∷ 0 ∷ 0 ∷ 7 ∷ 8 ∷ [])

abbrev opened : Initrd
opened = record { bytes = archive; count = 1 }

parse-archive : parse any_text archive ≡ ok opened
unfolding parse
parse-archive = refl

parse-cut : parse any_text magic ≡ err truncated
unfolding parse
parse-cut = refl

find-archive : find any_text opened (97 ∷ []) ≡ some (7 ∷ 8 ∷ [])
unfolding find
find-archive = refl

parse-IsParsed_example : IsParsed any_text archive (parse any_text archive)
parse-IsParsed_example = parse-IsParsed any_text archive

find-Finds_example : Finds any_text opened (97 ∷ []) 0 1 (find any_text opened (97 ∷ []))
find-Finds_example = find-Finds any_text opened (97 ∷ [])
