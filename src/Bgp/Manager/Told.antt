-- ===== src/Bgp/Manager/Told.antt =====
-- What the speaker was told after a reconciliation without an error.
use wdbgp.Prelude.{
  ◌≡◌, ℕ, Bool, List, Option, true, some, Bool-cases, refl, ◌==◌, arith, [], inl, if_true, ◌∙◌, sym,
  inr, if_false, subst, none, All, not, false, ◌||◌, ap, ◌&&◌,
}
use wdbgp.Netip.{Family, v4, v6}
use wdbgp.Netip.Laws.{prefix_eq_refl, prefix_eq→eq}
use wdbgp.Bgp.Wire.Types.{LargeCommunity}
use wdbgp.Bgp.Resync.{Route, communities_eq, family_eq}
use wdbgp.Bgp.Manager.{
  routes_equal, PeerPlan, Announced, set_at, has_equal, Progress, done, delivery_failed, aborted,
  announce_peer, reconcile_desired, reconcile_peer, next_unless_aborted, reconcile, ◌∷◌,
}

communities_eq_refl : (cs : List LargeCommunity) → communities_eq cs cs ≡ true
communities_eq_refl [] = refl
communities_eq_refl (c ∷ cs) = ground (arith, communities_eq_refl cs)

family_eq_refl : (f : Family) → family_eq f f ≡ true
family_eq_refl v4 = refl
family_eq_refl v6 = refl

routes_equal_refl : (rs : List Route) → routes_equal rs rs ≡ true
unfolding routes_equal
routes_equal_refl [] = refl
routes_equal_refl (r ∷ rs) = ground (
  arith,
  prefix_eq_refl r.prefix,
  communities_eq_refl r.communities,
  family_eq_refl r.next_hop.family,
  routes_equal_refl rs,
)

communities_eq→eq : (cs ds : List LargeCommunity) → communities_eq cs ds ≡ true → cs ≡ ds
communities_eq→eq [] [] h = refl
communities_eq→eq [] (d ∷ ds) h = absurd (ground (arith, h))
communities_eq→eq (c ∷ cs) [] h = absurd (ground (arith, h))
communities_eq→eq (c ∷ cs) (d ∷ ds) h =
    let tail : cs ≡ ds = communities_eq→eq cs ds (ground (arith, h)) in
    let head : c ≡ d = ground (arith, h) in λ i. head i ∷ tail i

family_eq→eq : (f g : Family) → family_eq f g ≡ true → f ≡ g
family_eq→eq v4 v4 h = refl
family_eq→eq v6 v6 h = refl
family_eq→eq v4 v6 h = absurd (ground (arith, h))
family_eq→eq v6 v4 h = absurd (ground (arith, h))

-- Routes that the comparison takes for equal are the same.
routes_equal→eq : (rs ts : List Route) → routes_equal rs ts ≡ true → rs ≡ ts
unfolding routes_equal
routes_equal→eq [] [] h = refl
routes_equal→eq [] (b ∷ bs) h = absurd (ground (arith, h))
routes_equal→eq (a ∷ as') [] h = absurd (ground (arith, h))
routes_equal→eq (a ∷ as') (b ∷ bs) h =
    let prefixes : a.prefix ≡ b.prefix = prefix_eq→eq a.prefix b.prefix (ground (arith, h)) in
    let comms : a.communities ≡ b.communities =
      communities_eq→eq a.communities b.communities (ground (arith, h)) in
    let families : a.next_hop.family ≡ b.next_hop.family =
      family_eq→eq a.next_hop.family b.next_hop.family (ground (arith, h)) in
    let values : a.next_hop.value ≡ b.next_hop.value = ground (arith, h) in
    let rest : as' ≡ bs = routes_equal→eq as' bs (ground (arith, h)) in
    λ i.
      record {
        prefix = prefixes i;
        communities = comms i;
        next_hop = record { family = families i; value = values i };
      }
      ∷ rest i

-- What `peerRoutes` has was told to the speaker.
abbrev pub IsCached : Announced → Type 0
IsCached st =
    (key : ℕ) (routes : List Route) → st.peer_routes key ≡ some routes → st.told key ≡ some routes

set_at-IsCached :
    (key : ℕ) (routes : Option (List Route)) (st : Announced)
    → IsCached st
    → IsCached (record {
      peer_routes = set_at key routes st.peer_routes;
      told = set_at key routes st.told;
    })
set_at-IsCached key routes st h k rs e = elim (Bool-cases (k == key)) [
  | inl same ↦ if_true routes (st.told k) same ∙ sym (if_true routes (st.peer_routes k) same) ∙ e
  | inr other ↦
      if_false routes (st.told k) other
      ∙ h k rs (sym (if_false routes (st.peer_routes k) other) ∙ e)
]

abbrev pub satisfies : Bool → Option (List Route) → Option (List Route) → Bool
satisfies enabled none told = not enabled
satisfies enabled (some desired) told = not enabled || has_equal told desired

-- The peer of a plan was told its routes.
abbrev pub is_told : PeerPlan → Announced → Bool
is_told plan st = satisfies plan.enabled plan.desired (st.told plan.key)

-- What one peer of the loop keeps and reaches.
pub record IsStepped (plan : PeerPlan) (st : Announced) (after : Progress × Announced)
    : Type 0 where
  pub cached : IsCached after.1
  pub told : after.0 ≡ done → is_told plan after.1 ≡ true
  pub others : (key : ℕ) → (key == plan.key) ≡ false → after.1.told key ≡ st.told key

has_equal-told :
    (cached told : Option (List Route)) (desired : List Route)
    → ((routes : List Route) → cached ≡ some routes → told ≡ some routes)
    → has_equal cached desired ≡ true
    → has_equal told desired ≡ true
has_equal-told none told desired h e = absurd (ground (arith, e))
has_equal-told (some routes) told desired h e = rw (h routes refl) e

announce_peer-IsStepped :
    (plan : PeerPlan) (desired : List Route) (st : Announced)
    → plan.desired ≡ some desired
    → IsCached st
    → IsStepped plan st (announce_peer plan desired st)
announce_peer-IsStepped plan desired st d h = elim (Bool-cases plan.delivers) [
  | inl e ↦ subst (IsStepped plan st) (sym (if_true _ _ e)) (record {
    cached = set_at-IsCached plan.key (some desired) st h;
    told = λ ok.
        let same : (plan.key == plan.key) ≡ true = ground arith in
        ap
          (λ (o : Option (List Route)).
            satisfies plan.enabled o (set_at plan.key (some desired) st.told plan.key))
          d
        ∙ ap (satisfies plan.enabled (some desired))
            (if_true (some desired) (st.told plan.key) same)
        ∙ ground (arith, routes_equal_refl desired);
    others = λ key other. if_false (some desired) (st.told key) other;
  })
  | inr e ↦ subst (IsStepped plan st) (sym (if_false _ _ e)) (record {
    cached = set_at-IsCached plan.key none st h;
    told = λ ok. absurd (ground (arith, ok));
    others = λ key other. if_false none (st.told key) other;
  })
]

reconcile_desired-IsStepped :
    (plan : PeerPlan) (desired : Option (List Route)) (st : Announced)
    → plan.desired ≡ desired
    → IsCached st
    → IsStepped plan st (reconcile_desired plan desired st)
reconcile_desired-IsStepped plan none st d h = record {
  cached = h;
  told = λ ok. absurd (ground (arith, ok));
  others = λ key other. refl;
}
reconcile_desired-IsStepped plan (some desired) st d h =
    elim (Bool-cases (has_equal (st.peer_routes plan.key) desired)) [
      | inl e ↦
          subst (IsStepped plan st) (sym (if_true _ (announce_peer plan desired st) e)) (record {
            cached = h;
            told = λ ok.
                ap (λ (o : Option (List Route)). satisfies plan.enabled o (st.told plan.key)) d
                ∙ ground (
                  arith,
                  has_equal-told (st.peer_routes plan.key) (st.told plan.key) desired (h plan.key)
                      e,
                );
            others = λ key other. refl;
          })
      | inr e ↦
          subst (IsStepped plan st) (sym (if_false (done, st) _ e))
            (announce_peer-IsStepped plan desired st d h)
    ]

reconcile_peer-IsStepped :
    (plan : PeerPlan) (st : Announced) → IsCached st → IsStepped plan st (reconcile_peer plan st)
reconcile_peer-IsStepped plan st h = elim (Bool-cases plan.enabled) [
  | inl e ↦
      subst (IsStepped plan st) (sym (if_true _ (done, st) e))
        (reconcile_desired-IsStepped plan plan.desired st refl h)
  | inr e ↦
      subst (IsStepped plan st) (sym (if_false (reconcile_desired plan plan.desired st) _ e))
        (record {
          cached = h;
          told = λ ok. off plan.enabled plan.desired (st.told plan.key) e;
          others = λ key other. refl;
        })
]
  where
    off :
        (enabled : Bool) (desired told : Option (List Route))
        → enabled ≡ false
        → satisfies enabled desired told ≡ true
    off enabled none told e = ground (arith, e)
    off enabled (some desired) told e = ground (arith, e)

-- No two plans are of one peer.
abbrev pub has_key : ℕ → List PeerPlan → Bool
has_key key [] = false
has_key key (plan ∷ plans) = (key == plan.key) || has_key key plans

abbrev pub are_distinct_peers : List PeerPlan → Bool
are_distinct_peers [] = true
are_distinct_peers (plan ∷ plans) = not (has_key plan.key plans) && are_distinct_peers plans

next-done :
    (step rest : Progress × Announced)
    → (next_unless_aborted step rest).0 ≡ done
    → (step.0 ≡ done) × ((rest.0 ≡ done) × ((next_unless_aborted step rest).1 ≡ rest.1))
next-done (done, st) rest h = (refl, (h, refl))
next-done (delivery_failed, st) (done, st') h = absurd (ground (arith, h))
next-done (delivery_failed, st) (delivery_failed, st') h = absurd (ground (arith, h))
next-done (delivery_failed, st) (aborted, st') h = absurd (ground (arith, h))
next-done (aborted, st) rest h = absurd (ground (arith, h))

reconcile-others :
    (plans : List PeerPlan) (st : Announced) (key : ℕ)
    → IsCached st
    → has_key key plans ≡ false
    → (reconcile plans st).0 ≡ done
    → (reconcile plans st).1.told key ≡ st.told key
unfolding reconcile
reconcile-others [] st key h other ok = refl
reconcile-others (plan ∷ plans) st key h other ok =
    let step = reconcile_peer plan st in
    let s : IsStepped plan st step = reconcile_peer-IsStepped plan st h in
    let rest = reconcile plans step.1 in
    let (first, (later, same)) = next-done step rest ok in
    ap (λ (x : Announced). x.told key) same
    ∙ reconcile-others plans step.1 key s.cached (ground (arith, other)) later
    ∙ s.others key (ground (arith, other))

reconcile-is_told :
    (plans : List PeerPlan) (st : Announced)
    → IsCached st
    → are_distinct_peers plans ≡ true
    → (reconcile plans st).0 ≡ done
    → All (λ plan. is_told plan (reconcile plans st).1 ≡ true) plans
      × IsCached (reconcile plans st).1
unfolding reconcile
reconcile-is_told [] st h u ok = (tt, h)
reconcile-is_told (plan ∷ plans) st h u ok =
    let step = reconcile_peer plan st in
    let s : IsStepped plan st step = reconcile_peer-IsStepped plan st h in
    let rest = reconcile plans step.1 in
    let (first, (later, same)) = next-done step rest ok in
    let (told, cached) = reconcile-is_told plans step.1 s.cached (ground (arith, u)) later in
    let kept : rest.1.told plan.key ≡ step.1.told plan.key =
      reconcile-others plans step.1 plan.key s.cached (ground (arith, u)) later in
    subst (λ (x : Announced). All (λ p. is_told p x ≡ true) (plan ∷ plans) × IsCached x) (sym same)
      ((ap (satisfies plan.enabled plan.desired) kept ∙ s.told first, told), cached)

-- The speaker was told exactly the routes that an enabled peer is to have.
abbrev pub IsTold : Bool → Option (List Route) → Option (List Route) → Type 0
IsTold false desired told = Unit
IsTold true desired told = told ≡ desired

satisfies-IsTold :
    (enabled : Bool) (desired told : Option (List Route))
    → satisfies enabled desired told ≡ true
    → IsTold enabled desired told
satisfies-IsTold false desired told h = tt
satisfies-IsTold true none told h = absurd (ground (arith, h))
satisfies-IsTold true (some rs) none h = absurd (ground (arith, h))
satisfies-IsTold true (some rs) (some ts) h = ap some (routes_equal→eq ts rs h)

all-IsTold :
    (plans : List PeerPlan) (st : Announced)
    → All (λ plan. is_told plan st ≡ true) plans
    → All (λ plan. IsTold plan.enabled plan.desired (st.told plan.key)) plans
all-IsTold [] st h = tt
all-IsTold (plan ∷ plans) st (h, hs) =
    (satisfies-IsTold plan.enabled plan.desired (st.told plan.key) h, all-IsTold plans st hs)

-- If what `peerRoutes` has was told to the speaker before, and no two peers have one key, then after a
-- reconciliation that returns no error the speaker was last told for each enabled peer exactly the
-- routes that the peer is to have, and what `peerRoutes` has was told to the speaker again.
pub reconcile-told :
    (plans : List PeerPlan) (st : Announced)
    → IsCached st
    → are_distinct_peers plans ≡ true
    → (reconcile plans st).0 ≡ done
    → All (λ plan. IsTold plan.enabled plan.desired ((reconcile plans st).1.told plan.key)) plans
      × IsCached (reconcile plans st).1
reconcile-told plans st h u ok =
    let (told, cached) = reconcile-is_told plans st h u ok in
    (all-IsTold plans (reconcile plans st).1 told, cached)
