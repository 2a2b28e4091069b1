-- ===== src/Tests/Buffer.antt =====
-- A response in two pieces, in a buffer as the downloaders allocate it.
use libytdl.Base.{◌≡◌, refl, true, [], ◌∷◌, ◌++◌, arith, codes, concat}
use libytdl.Buffer.{contents, alloc}
use libytdl.Buffer.Append.{append_all, IsValid, append_all-concat}

append_all-concat_example :
    let b = append_all (codes "ab" ∷ codes "c" ∷ []) (alloc true 1) in
    (contents b ≡ [] ++ concat (codes "ab" ∷ codes "c" ∷ [])) × IsValid b
unfolding alloc
append_all-concat_example =
    append_all-concat (codes "ab" ∷ codes "c" ∷ []) (alloc true 1) (refl, omega arith)
