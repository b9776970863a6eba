-- ===== src/Base/Text.antt =====
-- Text as the program handles it: `trim`, `split('.')`, `startsWith`, tests on all characters.
use Prim.Native.Nat.{ℕ}
use Prim.Native.Char.{Char, code}
use Prim.Native.String.{String, [], ◌∷◌, ◌++◌}
use mathlib.Core.Path.{◌≡◌, refl, sym, ap, ap₂, ◌∙◌}
use text.Mathlib.TextLemmas.{nil-append, cons-append}
use text.Mathlib.TextEquality.{Char-path}
use mathlib.Core.Bool.{Bool, true, false, not, ◌&&◌, ◌||◌}
use mathlib.Core.List.{List}
use native.Mathlib.Omega.{arith}
use creative_backend.Base.Tests.{leb, eqb, if◌then◌else◌, Bool-cases}
use mathlib.Core.Logic.{inl, inr}

abbrev pub dot : ℕ
dot = 46

-- the white space and line terminators of ECMAScript
unfoldable pub is_space : Char → Bool
is_space c =
    let k = code c in
    (leb 9 k && leb k 13)
    || eqb k 32
    || eqb k 160
    || eqb k 5760
    || (leb 8192 k && leb k 8202)
    || eqb k 8232
    || eqb k 8233
    || eqb k 8239
    || eqb k 8287
    || eqb k 12288
    || eqb k 65279

-- `!text`
abbrev pub is_empty : String → Bool
is_empty [] = true
is_empty (c ∷ s) = false

unfoldable pub trim_start : String → String
trim_start [] = []
trim_start (c ∷ s) = let rest = trim_start s in if is_space c then rest else c ∷ s

unfoldable pub trim_end : String → String
trim_end [] = []
trim_end (c ∷ s) = let rest = trim_end s in if is_space c && is_empty rest then [] else c ∷ rest

-- `String.prototype.trim`
unfoldable pub trim : String → String
unfolding trim_start trim_end is_space
trim s = trim_end (trim_start s)

abbrev pub every : (Char → Bool) → String → Bool
every p [] = true
every p (c ∷ s) = p c && every p s

abbrev push_head : Char → List String → List String
push_head c List.[] = List.◌∷◌ (c ∷ []) List.[]
push_head c (List.◌∷◌ part parts) = List.◌∷◌ (c ∷ part) parts

-- `split('.')`
unfoldable pub split_dot : String → List String
split_dot [] = List.◌∷◌ [] List.[]
split_dot (c ∷ s) =
    let rest = split_dot s in if eqb (code c) dot then List.◌∷◌ [] rest else push_head c rest

abbrev pub no_dot : Char → Bool
no_dot c = not (eqb (code c) dot)

abbrev pub not_space : Char → Bool
not_space c = not (is_space c)

pub split_dot-no_dot : (s : String) → every no_dot s ≡ true → split_dot s ≡ List.◌∷◌ s List.[]
unfolding split_dot
split_dot-no_dot [] h = refl
split_dot-no_dot (c ∷ s) h = ground (arith, split_dot-no_dot s)

abbrev pub join_dot : List String → String
join_dot List.[] = []
join_dot (List.◌∷◌ part List.[]) = part
join_dot (List.◌∷◌ part (List.◌∷◌ q parts)) = part ++ ("." ++ join_dot (List.◌∷◌ q parts))

pub dot-append : (b : String) → "." ++ b ≡ "." ∷ b
dot-append b = cons-append "." [] b ∙ ap (λ (t : String). "." ∷ t) (nil-append b)

-- A first part without dots is split off at the first dot.
pub split_dot-append :
    (a b : String) → every no_dot a ≡ true → split_dot (a ++ ("." ++ b)) ≡ List.◌∷◌ a (split_dot b)
unfolding split_dot
split_dot-append [] b h = rw (nil-append, dot-append)
split_dot-append (c ∷ a) b h = simp cons-append (ground (arith, split_dot-append a b))

join_dot-push_head :
    (c : Char) (parts : List String) → join_dot (push_head c parts) ≡ c ∷ join_dot parts
join_dot-push_head c List.[] = refl
join_dot-push_head c (List.◌∷◌ p List.[]) = refl
join_dot-push_head c (List.◌∷◌ p (List.◌∷◌ q r)) = simp cons-append

dot-path : (c : Char) → eqb (code c) dot ≡ true → "." ≡ c
dot-path c e = Char-path "." c (ground arith)

abbrev IsNonempty : List String → Type 0
IsNonempty List.[] = ⊥
IsNonempty (List.◌∷◌ p ps) = Unit

push_head-IsNonempty : (c : Char) (ps : List String) → IsNonempty (push_head c ps)
push_head-IsNonempty c List.[] = tt
push_head-IsNonempty c (List.◌∷◌ p ps) = tt

split_dot-ne-nil : (s : String) → IsNonempty (split_dot s)
unfolding split_dot
split_dot-ne-nil [] = tt
split_dot-ne-nil (c ∷ s) = elim (Bool-cases (eqb (code c) dot)) [
  | inl e ↦ rw e tt
  | inr e ↦ rw e (push_head-IsNonempty c (split_dot s))
]

join_dot-nil : (ps : List String) → IsNonempty ps → join_dot (List.◌∷◌ [] ps) ≡ "." ∷ join_dot ps
join_dot-nil List.[] h = absurd h
join_dot-nil (List.◌∷◌ p ps) h = rw nil-append (dot-append _)

pub join_dot-split_dot : (s : String) → join_dot (split_dot s) ≡ s
unfolding split_dot
join_dot-split_dot [] = refl
join_dot-split_dot (c ∷ s) = elim (Bool-cases (eqb (code c) dot)) [
  | inl e ↦ rw e (
      join_dot-nil (split_dot s) (split_dot-ne-nil s)
      ∙ ap₂ (λ (d : Char) (t : String). d ∷ t) (dot-path c e) (join_dot-split_dot s))
  | inr e ↦
      rw e (join_dot-push_head c (split_dot s) ∙ ap (λ (t : String). c ∷ t) (join_dot-split_dot s))
]

pub trim_start_id : (c : Char) (s : String) → is_space c ≡ false → trim_start (c ∷ s) ≡ c ∷ s
unfolding trim_start
trim_start_id c s h = rw h

pub trim_end_id : (s : String) → every not_space s ≡ true → trim_end s ≡ s
unfolding trim_end
trim_end_id [] h = refl
trim_end_id (c ∷ s) h = ground (arith, trim_end_id s)

-- A text with no white space in it is not changed.
pub trim_id : (s : String) → every not_space s ≡ true → trim s ≡ s
unfolding trim
trim_id [] h = refl
trim_id (c ∷ s) h = rw (trim_start_id c s (ground arith)) (trim_end_id (c ∷ s) h)

pub every-append :
    (p : Char → Bool) (s t : String) → every p s ≡ true → every p t ≡ true → every p (s ++ t) ≡ true
every-append p [] t h k = rw nil-append k
every-append p (c ∷ s) t h k = rw cons-append (ground (arith, every-append p s t))

trim_end-trim_end : (s : String) → trim_end (trim_end s) ≡ trim_end s
unfolding trim_end
trim_end-trim_end [] = refl
trim_end-trim_end (c ∷ s) = elim (Bool-cases (is_space c && is_empty (trim_end s))) [
  | inl e ↦ rw e refl
  | inr e ↦ rw e (rw (trim_end-trim_end s) (rw e refl))
]

-- the first character, if there is one, is no white space
abbrev starts_solid : String → Bool
starts_solid [] = true
starts_solid (c ∷ s) = not (is_space c)

trim_start-solid : (s : String) → starts_solid (trim_start s) ≡ true
unfolding trim_start
trim_start-solid [] = refl
trim_start-solid (c ∷ s) = ground (arith, trim_start-solid s)

solid-trim_start : (s : String) → starts_solid s ≡ true → trim_start s ≡ s
unfolding trim_start
solid-trim_start [] h = refl
solid-trim_start (c ∷ s) h = ground (arith, h)

trim_end-solid : (s : String) → starts_solid s ≡ true → starts_solid (trim_end s) ≡ true
unfolding trim_end
trim_end-solid [] h = refl
trim_end-solid (c ∷ s) h = ground (arith, h)

pub trim-trim : (s : String) → trim (trim s) ≡ trim s
unfolding trim
trim-trim s =
    ap trim_end (
      solid-trim_start (trim_end (trim_start s))
        (trim_end-solid (trim_start s) (trim_start-solid s)))
    ∙ trim_end-trim_end (trim_start s)

pub is_empty-append : (a b : String) → is_empty b ≡ false → is_empty (a ++ b) ≡ false
is_empty-append [] b h = rw nil-append h
is_empty-append (c ∷ a) b h = rw cons-append refl

pub trim_end-append :
    (a b : String) → is_empty b ≡ false → trim_end b ≡ b → trim_end (a ++ b) ≡ a ++ b
unfolding trim_end
trim_end-append [] b h k = rw nil-append k
trim_end-append (c ∷ a) b h k =
    rw cons-append (rw (trim_end-append a b h k) (ground (arith, is_empty-append a b h)))

-- A text that starts with a character that is no white space, and ends with such a character, is not
-- changed.
pub trim-append :
    (c : Char) (a b : String)
    → is_space c ≡ false
    → is_empty b ≡ false
    → trim_end b ≡ b
    → trim ((c ∷ a) ++ b) ≡ (c ∷ a) ++ b
unfolding trim
trim-append c a b h e k =
    ap trim_end
      (ap trim_start (cons-append c a b) ∙ (trim_start_id c (a ++ b) h ∙ sym (cons-append c a b)))
    ∙ trim_end-append (c ∷ a) b e k

-- a text with a dot in it has two parts or more
pub split_dot-many :
    (a b : String)
    → (p : String) × (q : String) × (rest : List String) × (split_dot (a ++ ("." ++ b))
        ≡ List.◌∷◌ p (List.◌∷◌ q rest))
unfolding split_dot
split_dot-many [] b = go (split_dot b) (split_dot-ne-nil b) refl
  where
    go :
        (ps : List String)
        → IsNonempty ps
        → split_dot b ≡ ps
        → (p : String) × (q : String) × (rest : List String) × (split_dot ([] ++ ("." ++ b))
            ≡ List.◌∷◌ p (List.◌∷◌ q rest))
    go List.[] n e = absurd n
    go (List.◌∷◌ q rest) n e =
        ([], q, rest, rw (nil-append, dot-append) (ap (λ ps. List.◌∷◌ [] ps) e))
split_dot-many (c ∷ a) b =
    let (p, q, rest, e) = split_dot-many a b in
    elim (Bool-cases (eqb (code c) dot)) [
      | inl d ↦ ([], p, List.◌∷◌ q rest, rw cons-append (rw d (ap (λ ps. List.◌∷◌ [] ps) e)))
      | inr d ↦ (c ∷ p, q, rest, rw cons-append (rw d (ap (push_head c) e)))
    ]
