-- ===== src/Alerts/Checker/Queue.antt =====
-- The queue as a map of the users.
use wdbgp.Prelude.{
  ℕ, List, ◌≡◌, Option, true, some, if◌then◌else◌, none, ◌==◌, arith, Bool-cases, [], not, inl,
  ◌&&◌, inr, false, subst, sym, refl, ◌∙◌, if_false,
}
use wdbgp.Alerts.Checker.{Delivery, put, put_all, ◌∷◌}
use wdbgp.Alerts.Checker.Exclusive.{has_user, is_unique}

-- The message of a user in a queue.
abbrev pub find_user : ℕ → List Delivery → Option Delivery
find_user user [] = none
find_user user (d ∷ ds) = if d.user == user then some d else find_user user ds

find_user-put :
    (user : ℕ) (d : Delivery) (queue : List Delivery)
    → find_user user (put d queue) ≡ (if d.user == user then some d else find_user user queue)
unfolding put
find_user-put user d [] = refl
find_user-put user d (q ∷ queue) = elim (Bool-cases (q.user == d.user)) [
  | inl e ↦ rw e (elim (Bool-cases (d.user == user)) [
    | inl f ↦ rw f refl
    | inr f ↦ let other : (q.user == user) ≡ false = ground (arith, e, f) in rw (f, other) refl
  ])
  | inr e ↦ rw e (elim (Bool-cases (q.user == user)) [
    | inl f ↦ let other : (d.user == user) ≡ false = ground (arith, e, f) in rw (f, other) refl
    | inr f ↦ rw f (find_user-put user d queue)
  ])
]

-- The last message of a user stays.
pub find_user-put_all :
    (user : ℕ) (ds queue : List Delivery)
    → is_unique ds ≡ true
    → find_user user (put_all ds queue)
      ≡ (if has_user user ds then find_user user ds else find_user user queue)
unfolding put_all
find_user-put_all user [] queue h = refl
find_user-put_all user (d ∷ ds) queue h =
    find_user-put_all user ds (put d queue) (ground (arith, h))
    ∙ elim (Bool-cases (has_user user ds)) [
      | inl e ↦ let other : (d.user == user) ≡ false = not_same user d ds h e in rw (e, other) refl
      | inr e ↦
          rw (e, find_user-put user d queue)
            (elim (Bool-cases (d.user == user)) [ inl f ↦ rw f refl | inr f ↦ rw f refl ])
    ]
  where
    not_same :
        (user : ℕ) (d : Delivery) (ds : List Delivery)
        → not (has_user d.user ds) && is_unique ds ≡ true
        → has_user user ds ≡ true
        → (d.user == user) ≡ false
    not_same user d ds h e = elim (Bool-cases (d.user == user)) [
      | inl f ↦
          let same : user ≡ d.user = ground (arith, f) in
          absurd (ground (arith, h, subst (λ (u : ℕ). has_user u ds ≡ true) same e))
      | inr f ↦ f
    ]

pub find-has :
    (user : ℕ) (d : Delivery) (ds : List Delivery)
    → find_user user ds ≡ some d
    → has_user user ds ≡ true
find-has user d [] h = absurd (ground (arith, h))
find-has user d (q ∷ ds) h = elim (Bool-cases (q.user == user)) [
  | inl e ↦ rw e refl
  | inr e ↦ rw e (find-has user d ds (sym (if_false (some q) (find_user user ds) e) ∙ h))
]
