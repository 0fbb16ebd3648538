-- ===== src/Monitor/Requests.antt =====
-- The counters of the requests.
use nats_kafka.Base.{
  ℕ, suc, ◌+◌, String, Bool, true, false, ◌||◌, List, [], ◌∷◌, none, some, ◌≡◌, refl, sym, ap, ◌∙◌,
  str_eq, eq_iff, if◌then◌else◌, Bool-cases, inl, inr, arith,
}
use nats_kafka.Base.Dict.{Dict, lookup, lookup-insert}
use nats_kafka.Monitor.{
  Request, root_path, varz_path, healthz_path, no_requests, count, handle_root, handle_varz,
  handle_healthz, handle, handle_each,
}

unfoldable pub is_page : String → Bool
is_page path = str_eq path varz_path || (str_eq path healthz_path || str_eq path root_path)

-- How many of the requests are on the path.
pub requests_of : String → List Request → ℕ
requests_of path [] = 0
requests_of path (r ∷ rs) =
    let rest = requests_of path rs in if str_eq r.path path then suc rest else rest

handle_counts :
    (r : Request) (d : Dict ℕ) → (handle r d).1 ≡ (if is_page r.path then count r.path d else d)
unfolding handle handle_root handle_varz handle_healthz is_page
handle_counts r d = elim (Bool-cases (str_eq r.path varz_path)) [
  | inl varz ↦ rw varz (ap (λ p. count p d) (sym ((eq_iff r.path varz_path).0 varz)))
  | inr no_varz ↦ elim (Bool-cases (str_eq r.path healthz_path)) [
    | inl health ↦
        rw (no_varz, health) (ap (λ p. count p d) (sym ((eq_iff r.path healthz_path).0 health)))
    | inr no_health ↦ elim (Bool-cases (str_eq r.path root_path)) [
      | inl root ↦
          rw (no_varz, no_health, root)
            (ap (λ p. count p d) (sym ((eq_iff r.path root_path).0 root)))
      | inr no_root ↦ rw (no_varz, no_health, no_root) refl
    ]
  ]
]

lookup-count_same :
    (path : String) (d : Dict ℕ) (n : ℕ)
    → lookup path d ≡ some n
    → lookup path (count path d) ≡ some (n + 1)
unfolding count
lookup-count_same path d n h =
    rw
      (
        lookup-insert path path (elim (lookup path d) [ none ↦ 0 | some n ↦ n ] + 1) d,
        (eq_iff path path).1 refl,
        h,
      )
      refl

lookup-count_other :
    (path other : String) (d : Dict ℕ)
    → str_eq path other ≡ false
    → lookup other (count path d) ≡ lookup other d
unfolding count
lookup-count_other path other d h =
    rw (lookup-insert path other (elim (lookup path d) [ none ↦ 0 | some n ↦ n ] + 1) d, h) refl

lookup-handle_each :
    (path : String) (rs : List Request) (d : Dict ℕ) (n : ℕ)
    → is_page path ≡ true
    → lookup path d ≡ some n
    → lookup path (handle_each rs d) ≡ some (n + requests_of path rs)
unfolding handle_each requests_of
lookup-handle_each path [] d n page h = rw h (ap some (omega arith))
lookup-handle_each path (r ∷ rs) d n page h = elim (Bool-cases (str_eq r.path path)) [
  | inl same ↦
      let e : r.path ≡ path = (eq_iff r.path path).0 same in
      let now : lookup path (handle r d).1 ≡ some (n + 1) =
        rw (handle_counts r d, e, page) (lookup-count_same path d n h) in
      rw same (lookup-handle_each path rs (handle r d).1 (n + 1) page now ∙ ap some (omega arith))
  | inr other ↦
      let now : lookup path (handle r d).1 ≡ some n =
        rw (handle_counts r d) (elim (Bool-cases (is_page r.path)) [
          | inl counted ↦ rw counted (lookup-count_other r.path path d other ∙ h)
          | inr missed ↦ rw missed h
        ]) in
      rw other (lookup-handle_each path rs (handle r d).1 n page now)
]

lookup-no_requests : (path : String) → is_page path ≡ true → lookup path no_requests ≡ some 0
unfolding is_page lookup
lookup-no_requests path page = elim (Bool-cases (str_eq path varz_path)) [
  | inl varz ↦ ap (λ p. lookup p no_requests) ((eq_iff path varz_path).0 varz)
  | inr no_varz ↦ elim (Bool-cases (str_eq path healthz_path)) [
    | inl health ↦ ap (λ p. lookup p no_requests) ((eq_iff path healthz_path).0 health)
    | inr no_health ↦
        ap (λ p. lookup p no_requests) ((eq_iff path root_path).0 (rw (no_varz, no_health) at page))
  ]
]

-- From when the server starts, each counter is the number of the requests on its path, in whatever
-- order they came and however they were answered; requests on another path are not counted.
pub handle_each_lem :
    (path : String) (rs : List Request)
    → is_page path ≡ true
    → lookup path (handle_each rs no_requests) ≡ some (requests_of path rs)
handle_each_lem path rs page =
    lookup-handle_each path rs no_requests 0 page (lookup-no_requests path page)
    ∙ ap some (omega arith)
