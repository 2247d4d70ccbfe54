-- ===== src/History/Pages.antt =====
-- apps/demo/src/lib/dapp/vault-leaf-history.ts: `fetchSignaturesPaginated` ends.
use darknyx_capstone_project.Base.{
  ◌-◌, min, length-append, leb, ltb, zero, suc, ap, ◌∙◌, inr, inl, ◌==◌, arith, Bool-cases, ◌≡◌,
  none, some, length, Option, ◌<◌, ◌≤◌, refl, ℕ, List, [], ◌++◌,
}
use darknyx_capstone_project.Errors.{ok, err, Result}
use darknyx_capstone_project.History.{
  last_signature, Connection, fetch_signatures_paginated, fetch_loop, after_page,
}
use Prim.Native.String.{String}

-- Both have ended, and alike.
abbrev EndAlike : Option (Result (List String)) → Option (Result (List String)) → Type 0
EndAlike here there = (ended : Result (List String)) × (here ≡ some ended) × (there ≡ some ended)

after_page-EndAlike :
    (remaining : ℕ) (out : List String) (f g : List String → Option (Result (List String)))
    → ((page : List String) → 1 ≤ length page → EndAlike (f page) (g page))
    → (answer : Result (List String))
    → EndAlike (after_page remaining out f answer) (after_page remaining out g answer)
after_page-EndAlike remaining out f g h (err thrown) = (err thrown, refl, refl)
after_page-EndAlike remaining out f g h (ok page) = elim (Bool-cases (length page == 0)) [
  | inl empty ↦ rw empty (ok out, refl, refl)
  | inr some_more ↦ rw some_more (elim (Bool-cases (ltb (length page) remaining)) [
    | inl short ↦ rw short (ok (out ++ page), refl, refl)
    | inr whole ↦ rw whole (h page (ground arith))
  ])
]

-- From any state of the loop, more rounds than signatures are missing to the cap end it, and any other
-- such number of rounds ends it alike.
fetch_loop-EndAlike :
    (connection : Connection) (hard_cap fuel more : ℕ) (out : List String) (before : Option String)
    → hard_cap - length out < fuel
    → hard_cap - length out < more
    → EndAlike
        (fetch_loop connection hard_cap fuel out before)
        (fetch_loop connection hard_cap more out before)
unfolding fetch_loop
fetch_loop-EndAlike connection hard_cap zero more out before h k = absurd (omega arith)
fetch_loop-EndAlike connection hard_cap (suc fuel) zero out before h k = absurd (omega arith)
fetch_loop-EndAlike connection hard_cap (suc fuel) (suc more) out before h k =
    elim (Bool-cases (leb hard_cap (length out))) [
      | inl full ↦ rw full (ok out, refl, refl)
      | inr missing ↦
          let below : length out < hard_cap = ground arith in
          rw missing (
            after_page-EndAlike (min 1000 (hard_cap - length out)) out _ _
              (λ page some_more.
                fetch_loop-EndAlike connection hard_cap fuel more (out ++ page)
                  (last_signature page) (omega (arith, length-append out page, h, below))
                  (omega (arith, length-append out page, k, below)))
              (connection.get_signatures (min 1000 (hard_cap - length out)) before))
    ]

-- The paging loop ends by itself, whatever the server answers, in at most `hard_cap` rounds and the one
-- that finds the cap reached: with any larger number of rounds it has ended, with what
-- `fetchSignaturesPaginated` returns or throws.
pub fetch_signatures_paginated-ends :
    (connection : Connection) (hard_cap fuel : ℕ)
    → hard_cap < fuel
    → fetch_loop connection hard_cap fuel [] none
      ≡ some (fetch_signatures_paginated connection hard_cap)
unfolding fetch_signatures_paginated
fetch_signatures_paginated-ends connection hard_cap fuel h =
    let (ended, here, there) =
      fetch_loop-EndAlike connection hard_cap fuel (suc hard_cap) [] none (omega arith)
        (omega arith) in
    here ∙ ap some (rw (fetch_signatures_paginated, there) refl)
