-- ===== src/Xtask/Make/Given.antt =====
-- The arguments of a list that give a variable.
use mene_os.Base.{
  ℕ, ◌≡◌, refl, ap, subst, take-append, Bool, true, false, not, ◌&&◌, List, [], ◌∷◌, ◌++◌, Option,
  none, some, arith, if◌then◌else◌, bytes_eq_refl, Bool-cases, inl, inr,
}
use mathlib.Core.List.{append_assoc}
use mene_os.Base.Text.{starts_with}
use mene_os.Xtask.Make.{any_starts_with, assign, only_if, some_value, is_none, or_else}

-- The arguments that begin with `key=`.
unfoldable pub given : List ℕ → List (List ℕ) → List (List ℕ)
given key [] = []
given key (arg ∷ args) =
    if starts_with (key ++ b'=' ∷ []) arg then arg ∷ given key args else given key args

pub given-append :
    (key : List ℕ) (l m : List (List ℕ)) → given key (l ++ m) ≡ given key l ++ given key m
unfolding given
given-append key [] m = refl
given-append key (arg ∷ l) m = elim (Bool-cases (starts_with (key ++ b'=' ∷ []) arg)) [
  | inl at_front ↦ rw at_front (ap (◌∷◌ arg) (given-append key l m))
  | inr elsewhere ↦ rw elsewhere (given-append key l m)
]

-- Without an override, no argument of the user begins with `key=`.
pub given-make_args :
    (key : List ℕ) (l : List (List ℕ))
    → any_starts_with (key ++ b'=' ∷ []) l ≡ false
    → given key l ≡ []
unfolding given any_starts_with
given-make_args key [] h = refl
given-make_args key (arg ∷ l) h =
    let head : starts_with (key ++ b'=' ∷ []) arg ≡ false = ground (arith, h) in
    let tail : any_starts_with (key ++ b'=' ∷ []) l ≡ false = ground (arith, h) in
    rw head (given-make_args key l tail)

starts_with-assign : (key val : List ℕ) → starts_with (key ++ b'=' ∷ []) (assign key val) ≡ true
starts_with-assign key val =
    let split : (key ++ b'=' ∷ []) ++ val ≡ assign key val = append_assoc key (b'=' ∷ []) val in
    subst (λ x. starts_with (key ++ b'=' ∷ []) x ≡ true) split
      (rw (take-append (key ++ b'=' ∷ []) val) (bytes_eq_refl (key ++ b'=' ∷ [])))

given-assign : (key val : List ℕ) → given key (assign key val ∷ []) ≡ assign key val ∷ []
unfolding given
given-assign key val = rw (starts_with-assign key val) refl

pub given-only_if :
    (key arg : List ℕ) (b : Bool)
    → starts_with (key ++ b'=' ∷ []) arg ≡ false
    → given key (only_if b arg) ≡ []
unfolding given
given-only_if key arg false h = refl
given-only_if key arg true h = rw h refl

pub given-some_value :
    (key other : List ℕ) (b : Bool) (val : Option (List ℕ))
    → ((v : List ℕ) → starts_with (key ++ b'=' ∷ []) (assign other v) ≡ false)
    → given key (if b then [] else some_value val other) ≡ []
unfolding given
given-some_value key other true val h = refl
given-some_value key other false none h = refl
given-some_value key other false (some v) h = rw (h v) refl

pub split_parts :
    (key : List ℕ) (l1 l2 l3 l4 l5 l6 l7 l8 : List (List ℕ))
    → given key (l1 ++ (l2 ++ (l3 ++ (l4 ++ (l5 ++ (l6 ++ (l7 ++ l8)))))))
      ≡ given key l1
        ++ (given key l2
            ++ (given key l3
                ++ (given key l4
                    ++ (given key l5 ++ (given key l6 ++ (given key l7 ++ given key l8))))))
split_parts key l1 l2 l3 l4 l5 l6 l7 l8 =
    rw
      (
        given-append key l1 (l2 ++ (l3 ++ (l4 ++ (l5 ++ (l6 ++ (l7 ++ l8)))))),
        given-append key l2 (l3 ++ (l4 ++ (l5 ++ (l6 ++ (l7 ++ l8))))),
        given-append key l3 (l4 ++ (l5 ++ (l6 ++ (l7 ++ l8)))),
        given-append key l4 (l5 ++ (l6 ++ (l7 ++ l8))),
        given-append key l5 (l6 ++ (l7 ++ l8)),
        given-append key l6 (l7 ++ l8),
        given-append key l7 l8,
      )
      refl

-- The argument for a value of the environment, or the default without one.
abbrev pub env_or : List (List ℕ) → (List ℕ → List ℕ) → Option (List ℕ) → List (List ℕ)
env_or default arg none = default
env_or default arg (some val) = arg val ∷ []

-- The default, the environment and the user, in a variable that has both of the first.
pub default_env_user :
    (key default : List ℕ) (d o : Bool) (val : Option (List ℕ)) (user : List (List ℕ))
    → (o ≡ false → given key user ≡ [])
    → given key (only_if (d && not o && is_none val) (assign key default))
        ++ (given key (if o then [] else some_value val key) ++ given key user)
      ≡ (if o then given key user else env_or (only_if d (assign key default)) (assign key) val)
unfolding given
default_env_user key default true true val user h = refl
default_env_user key default false true val user h = refl
default_env_user key default true false none user h =
    rw (h refl, starts_with-assign key default) refl
default_env_user key default false false none user h = h refl
default_env_user key default true false (some v) user h = rw (h refl, starts_with-assign key v) refl
default_env_user key default false false (some v) user h =
    rw (h refl, starts_with-assign key v) refl

-- The same for a variable whose default stands for a value of the environment.
pub value_or_user :
    (key default : List ℕ) (arg : List ℕ → List ℕ) (o : Bool) (val : Option (List ℕ))
    (user : List (List ℕ))
    → (o ≡ false → given key user ≡ [])
    → given key (only_if (not o) (assign key (arg (or_else default val)))) ++ given key user ≡ (
        if o
        then given key user
        else env_or (assign key (arg default) ∷ []) (λ v. assign key (arg v)) val)
value_or_user key default arg true val user h = unfold given in refl
value_or_user key default arg false none user h = rw (h refl, given-assign key (arg default)) refl
value_or_user key default arg false (some v) user h = rw (h refl, given-assign key (arg v)) refl
