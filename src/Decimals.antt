-- ===== src/Decimals.antt =====
-- apps/demo/src/lib/dapp/decimals.ts: amounts as decimal texts and in atoms. A text is its characters'
-- codes; a `number` comes as the text of its `toString`.
pub mod Printed
pub mod Strings
pub mod Trimmed
pub mod RoundTrip
use mathlib.Core.List.{reverse}
use darknyx_capstone_project.Base.{
  ℕ, zero, suc, ◌+◌, ◌-◌, ◌/◌, ◌%◌, [], ◌∷◌, ◌++◌, Bool, true, false, not, ◌&&◌, ◌||◌, ◌==◌, leb,
  ltb, if◌then◌else◌, length, take, drop, replicate, Option, none, some,
}
use darknyx_capstone_project.Base.Int.{ℤ, pos, negsuc}
use darknyx_capstone_project.Bytes.{Bytes}
use darknyx_capstone_project.Errors.{Result, ok, err, other_error}
use darknyx_capstone_project.Groth16.{digits_of}
use darknyx_capstone_project.Groth16.Decimal.{dec_value}

pub data Human : Type 0 where
  human_bigint : ℤ → Human
  human_number human_text : Bytes → Human

abbrev pub is_digit : ℕ → Bool
is_digit c = leb 48 c && leb c 57

-- What `trim` takes away.
abbrev pub is_space : ℕ → Bool
is_space c =
    (leb 9 c && leb c 13)
    || (c == 32
        || (c == 160
            || (c == 5760
                || ((leb 8192 c && leb c 8202)
                    || (c == 8232
                        || (c == 8233
                            || (c == 8239 || (c == 8287 || (c == 12288 || c == 65279)))))))))

abbrev pub drop_spaces : Bytes → Bytes
drop_spaces [] = []
drop_spaces (c ∷ cs) = if is_space c then drop_spaces cs else c ∷ cs

abbrev pub trim : Bytes → Bytes
trim text = reverse (drop_spaces (reverse (drop_spaces text)))

-- The digits in front, and the rest.
abbrev pub span_digits : Bytes → Bytes × Bytes
span_digits [] = ([], [])
span_digits (c ∷ cs) =
    if is_digit c then (c ∷ (span_digits cs).0, (span_digits cs).1) else ([], c ∷ cs)

-- The integer digits, then nothing or a point and fractional digits.
abbrev pub match_fraction : Bytes → Bytes → Option (Bytes × Bytes)
match_fraction int [] = some (int, [])
match_fraction int (c ∷ cs) =
    let rest = span_digits cs in
    if c == 46 && (not (length rest.0 == 0) && length rest.1 == 0) then some (int, rest.0) else none

abbrev pub match_digits : Bytes → Option (Bytes × Bytes)
match_digits text =
    let front = span_digits text in
    if length front.0 == 0 then none else match_fraction front.0 front.1

-- `/^(-)?(\d+)(?:\.(\d+))?$/.exec(raw)`: the sign, and the two groups.
abbrev pub match_amount : Bytes → Bool × Option (Bytes × Bytes)
match_amount [] = (false, none)
match_amount (c ∷ cs) = if c == 45 then (true, match_digits cs) else (false, match_digits (c ∷ cs))

abbrev pub signed : Bool → ℕ → ℤ
signed false n = pos n
signed true zero = pos zero
signed true (suc n) = negsuc n

-- `fracPart.padEnd(decimals, "0")`.
abbrev pub pad_end : ℕ → Bytes → Bytes
pad_end n text = text ++ replicate (n - length text) 48

abbrev pub atoms_of : Bool → Option (Bytes × Bytes) → ℕ → Result ℤ
atoms_of negative none decimals = err other_error
atoms_of negative (some (int, frac)) decimals =
    if ltb decimals (length frac)
    then err other_error
    else ok (signed negative (dec_value (digits_of (int ++ pad_end decimals frac))))

unfoldable pub parse_atoms : Bytes → ℕ → Result ℤ
parse_atoms [] decimals = ok (pos 0)
parse_atoms (c ∷ cs) decimals = let m = match_amount (c ∷ cs) in atoms_of m.0 m.1 decimals

unfoldable pub to_atoms : Human → ℕ → Result ℤ
unfolding parse_atoms
to_atoms (human_bigint atoms) decimals = ok atoms
to_atoms (human_number raw) decimals = parse_atoms raw decimals
to_atoms (human_text text) decimals = parse_atoms (trim text) decimals

-- The digits of a number set before `acc`; a number has at most as many digits as its value.
unfoldable pub print_loop : ℕ → ℕ → Bytes → Bytes
print_loop zero n acc = acc
print_loop (suc fuel) n acc =
    let rest = print_loop fuel (n / 10) ((48 + n % 10) ∷ acc) in if n == 0 then acc else rest

-- `abs.toString()`.
unfoldable pub print_nat : ℕ → Bytes
unfolding print_loop
print_nat n = if n == 0 then 48 ∷ [] else print_loop n n []

abbrev pub pad_start : ℕ → Bytes → Bytes
pad_start n text = replicate (n - length text) 48 ++ text

-- `replace(/0+$/, "")`.
abbrev pub strip_zeros : Bytes → Bytes
strip_zeros [] = []
strip_zeros (c ∷ cs) =
    let rest = strip_zeros cs in if c == 48 && length rest == 0 then [] else c ∷ rest

abbrev pub magnitude : ℤ → ℕ
magnitude (pos n) = n
magnitude (negsuc n) = suc n

abbrev pub sign_text : ℤ → Bytes
sign_text (pos n) = []
sign_text (negsuc n) = 45 ∷ []

abbrev pub with_fraction : Bytes → Bytes → Bytes
with_fraction int [] = int
with_fraction int (c ∷ cs) = int ++ 46 ∷ (c ∷ cs)

-- `s.slice(0, cut) || "0"`.
abbrev pub or_nought : Bytes → Bytes
or_nought [] = 48 ∷ []
or_nought (c ∷ cs) = c ∷ cs

unfoldable pub from_atoms : ℤ → ℕ → Bytes
unfolding print_nat
from_atoms v zero = sign_text v ++ print_nat (magnitude v)
from_atoms v (suc d) =
    let s = pad_start (suc d + 1) (print_nat (magnitude v)) in
    let cut = length s - suc d in
    sign_text v ++ with_fraction (or_nought (take cut s)) (strip_zeros (drop cut s))
