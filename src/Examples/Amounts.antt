-- ===== src/Examples/Amounts.antt =====
-- Amounts as decimal texts.
use darknyx_capstone_project.Decimals.{to_atoms, from_atoms, human_text}
use darknyx_capstone_project.Decimals.RoundTrip.{to_atoms-from_atoms}
use darknyx_capstone_project.Base.{[], ◌∷◌, ◌≡◌, refl}
use darknyx_capstone_project.Base.Int.{pos, negsuc}
use darknyx_capstone_project.Errors.{ok, err, other_error}

to_atoms-from_atoms_example :
    to_atoms (human_text (from_atoms (negsuc 1249) 3)) 3 ≡ ok (negsuc 1249)
to_atoms-from_atoms_example = to_atoms-from_atoms (negsuc 1249) 3

from_atoms_lem :
    (from_atoms (negsuc 1249) 3 ≡ 45 ∷ 49 ∷ 46 ∷ 50 ∷ 53 ∷ []) × (from_atoms (pos 0) 2 ≡ 48 ∷ [])
unfolding from_atoms
from_atoms_lem = (refl, refl)

to_atoms_refused : to_atoms (human_text (49 ∷ 46 ∷ 50 ∷ 53 ∷ [])) 1 ≡ err other_error
unfolding to_atoms
to_atoms_refused = refl
