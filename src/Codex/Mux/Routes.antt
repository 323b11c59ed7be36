-- ===== src/Codex/Mux/Routes.antt =====
-- The routes of a mux when bridges come and go (providers/codex/experimental.py).
use proteo_runtime.Prelude.{
  ℕ, String, ◌≡◌, ◌≢◌, refl, sym, ap, ◌∙◌, any, Bool, true, false, nat_beq, nat_beq_iff, Option,
  none, some, List, [], ◌∷◌, arith, inl, inr, Bool-cases, if◌then◌else◌, All,
}
use proteo_runtime.Prelude.Dict.{Dict, lookup, values, lookup-insert_self}
use proteo_runtime.Tools.Values.{Entries}
use proteo_runtime.Tools.Dedup.{key_eq}
use proteo_runtime.Codex.Bridge.{Bridge, unbind, thread_of, turn_of, invocation_of, same_id}
use proteo_runtime.Codex.Mux.{
  RouteKey, Hub, put_bridge, put_member, register_route, without, unregister_route, by_invocation,
  or_empty, fall_back, route, close_bridge, close_bridges, close_mux,
}

-- No reference is `n`.
abbrev Lacks : ℕ → List ℕ → Type 0
Lacks n ms = All (λ m. m ≢ n) ms

lookup-without :
    (n : ℕ) (key : RouteKey) (routes : Dict RouteKey ℕ) → lookup key (without n routes) ≢ some n
unfolding lookup without
lookup-without n key [] h = absurd (cc)
lookup-without n key ((j, m) ∷ rest) h = ground (arith, nat_beq_iff n m, lookup-without n key rest)

Lacks-without : (n : ℕ) (routes : Dict RouteKey ℕ) → Lacks n (values (without n routes))
unfolding without
Lacks-without n [] = tt
Lacks-without n ((j, m) ∷ rest) = elim (Bool-cases (nat_beq n m)) [
  | inl same ↦ rw same (Lacks-without n rest)
  | inr other ↦ rw other ((λ e. ground (arith, nat_beq_iff n m)), Lacks-without n rest)
]

by_invocation-Lacks :
    (bridges : ℕ → Bridge) (i : Option String) (n : ℕ) (ms : List ℕ)
    → Lacks n ms
    → by_invocation bridges i ms ≢ some n
unfolding by_invocation
by_invocation-Lacks bridges none n ms lacks h = absurd (cc)
by_invocation-Lacks bridges (some i) n [] lacks h = absurd (cc)
by_invocation-Lacks bridges (some i) n (m ∷ ms) (other, lacks) h =
    elim (Bool-cases (same_id (bridges m).invocation_id (some i))) [
      | inl hit ↦ other (ground (arith))
      | inr miss ↦ by_invocation-Lacks bridges (some i) n ms lacks (rw miss at h)
    ]

fall_back-Lacks :
    (h : Hub) (params : Entries) (thread turn : Option String) (o : Option ℕ) (n : ℕ)
    → o ≢ some n
    → Lacks n (values h.routes)
    → fall_back h params thread turn o ≢ some n
unfolding fall_back
fall_back-Lacks h params thread turn (some m) n other lacks = other
fall_back-Lacks h params none none none n other lacks =
    by_invocation-Lacks h.bridges (invocation_of params) n (values h.routes) lacks
fall_back-Lacks h params none (some u) none n other lacks = other
fall_back-Lacks h params (some t) turn none n other lacks = other

-- After `unregister`, no request is routed to the bridge, whatever identifiers it names.
pub route-unregister_route :
    (n : ℕ) (h : Hub) (params : Entries) → route (unregister_route n h) params ≢ some n
unfolding route unregister_route put_bridge
route-unregister_route n h params =
    fall_back-Lacks (unregister_route n h) params (thread_of params) (turn_of params) _ n
      (lookup-without n _ h.routes) (Lacks-without n h.routes)

-- After `register`, a request that names the thread and the turn is routed to the bridge.
pub route-register_route :
    (n : ℕ) (thread turn : String) (invocation task session : Option String) (h : Hub)
    (params : Entries)
    → thread_of params ≡ some thread
    → turn_of params ≡ some turn
    → route (register_route n thread turn invocation task session h) params ≡ some n
unfolding route register_route put_bridge or_empty fall_back
route-register_route n thread turn invocation task session h params t u =
    rw (t, u, lookup-insert_self (thread, turn) n h.routes)

without_all : List ℕ → Dict RouteKey ℕ → Dict RouteKey ℕ
without_all [] routes = routes
without_all (n ∷ ns) routes = without_all ns (without n routes)

-- Every route leads to one of the references.
abbrev Covers : List ℕ → Dict RouteKey ℕ → Type 0
Covers ns [] = Unit {0}
Covers ns ((key, m) ∷ rest) = (any (nat_beq m) ns ≡ true) × Covers ns rest

Covers-cons :
    (n : ℕ) (ns : List ℕ) (routes : Dict RouteKey ℕ) → Covers ns routes → Covers (n ∷ ns) routes
Covers-cons n ns [] h = tt
Covers-cons n ns ((key, m) ∷ rest) (here, there) = (ground arith, Covers-cons n ns rest there)

Covers-values : (routes : Dict RouteKey ℕ) → Covers (values routes) routes
Covers-values [] = tt
Covers-values ((key, m) ∷ rest) =
    (ground (arith, nat_beq_iff m m), Covers-cons m (values rest) rest (Covers-values rest))

Covers-without :
    (n : ℕ) (ns : List ℕ) (routes : Dict RouteKey ℕ)
    → Covers (n ∷ ns) routes
    → Covers ns (without n routes)
unfolding without
Covers-without n ns [] h = tt
Covers-without n ns ((key, m) ∷ rest) (here, there) = elim (Bool-cases (nat_beq n m)) [
  | inl same ↦ rw same (Covers-without n ns rest there)
  | inr other ↦
      rw other (ground (arith, nat_beq_iff n m, nat_beq_iff m n), Covers-without n ns rest there)
]

without_all-Covers :
    (ns : List ℕ) (routes : Dict RouteKey ℕ) → Covers ns routes → without_all ns routes ≡ []
unfolding without_all
without_all-Covers [] [] h = refl
without_all-Covers [] ((key, m) ∷ rest) (here, there) = absurd (cc)
without_all-Covers (n ∷ ns) routes h =
    without_all-Covers ns (without n routes) (Covers-without n ns routes h)

close_bridges-routes :
    (ns : List ℕ) (h : Hub) → (close_bridges ns h).routes ≡ without_all ns h.routes
unfolding close_bridges without_all close_bridge unregister_route put_bridge put_member
close_bridges-routes [] h = refl
close_bridges-routes (n ∷ ns) h = close_bridges-routes ns (close_bridge n h)

close_bridge-bridges :
    (m : ℕ) (h : Hub) (n : ℕ)
    → (close_bridge m h).bridges n ≡ (if nat_beq n m then unbind (h.bridges n) else h.bridges n)
unfolding close_bridge unregister_route put_bridge put_member
close_bridge-bridges m h n = elim (Bool-cases (nat_beq n m)) [
  | inl same ↦ let e : n ≡ m = (nat_beq_iff n m).0 same in rw (same, (nat_beq_iff m n).1 (sym e), e)
  | inr other ↦ ground (arith, nat_beq_iff n m, nat_beq_iff m n)
]

-- A bridge that is closed twice is unbound.
unbind_twice : (b : Bool) (x : Bridge) → (if b then unbind (unbind x) else unbind x) ≡ unbind x
unfolding unbind
unbind_twice true x = refl
unbind_twice false x = refl

close_bridges-bridges :
    (ns : List ℕ) (h : Hub) (n : ℕ)
    → (close_bridges ns h).bridges n
      ≡ (if any (nat_beq n) ns then unbind (h.bridges n) else h.bridges n)
unfolding close_bridges
close_bridges-bridges [] h n = refl
close_bridges-bridges (m ∷ ns) h n =
    close_bridges-bridges ns (close_bridge m h) n
    ∙ ap (λ (x : Bridge). if any (nat_beq n) ns then unbind x else x) (close_bridge-bridges m h n)
    ∙ elim (Bool-cases (nat_beq n m)) [
      | inl same ↦ rw same (unbind_twice (any (nat_beq n) ns) (h.bridges n))
      | inr other ↦ rw other
    ]

-- `close` leaves no route, unbinds every bridge that was routed, and touches no other bridge.
pub close_mux-routes :
    (h : Hub)
    → ((close_mux h).routes ≡ [])
      × ((n : ℕ)
          → (close_mux h).bridges n
            ≡ (if any (nat_beq n) (values h.routes) then unbind (h.bridges n) else h.bridges n))
unfolding close_mux
close_mux-routes h = (
  close_bridges-routes (values h.routes) h
      ∙ without_all-Covers (values h.routes) h.routes (Covers-values h.routes),
  close_bridges-bridges (values h.routes) h,
)
