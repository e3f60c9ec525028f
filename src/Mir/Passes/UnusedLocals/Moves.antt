-- ===== src/Mir/Passes/UnusedLocals/Moves.antt =====
-- The swaps of `RemoveUnusedLocals`, and the new ids of the locals.
use mathlib.Core.Path.{subst}
use kli.Prelude.{
  ℕ, zero, suc, ◌+◌, ◌≤◌, ◌<◌, ◌≡◌, ◌≢◌, inl, inr, refl, ap, sym, ◌∙◌, true, false, none, some,
  List, [], ◌∷◌, length, get_elem?, set, arith, length-set, get_elem?-some, get_elem?-set_self,
  get_elem?-set_ne, Bool-cases, ◌==◌, ==_iff, if◌then◌else◌,
}
use kli.Prelude.Outcome.{ok}
use kli.Mir.Syntax.{Local, LocalInfo}
use kli.Mir.Graph.{contains}
use kli.Mir.Passes.UnusedLocals.{swap, Renumbering, renumber}

-- The number of used locals below an id.
abbrev pub used_below : List Local → Local → ℕ
used_below used zero = 0
used_below used (suc l) = elim (contains l used) [
  | true ↦ suc (used_below used l)
  | false ↦ used_below used l
]

used_below-used :
    (used : List Local) (l : Local)
    → contains l used ≡ true
    → used_below used (suc l) ≡ suc (used_below used l)
used_below-used used l e = rw (used_below, e) refl

used_below-unused :
    (used : List Local) (l : Local)
    → contains l used ≡ false
    → used_below used (suc l) ≡ used_below used l
used_below-unused used l e = rw (used_below, e) refl

used_below_le : (used : List Local) (l : Local) → used_below used l ≤ l
used_below_le used zero = omega arith
used_below_le used (suc l) = elim (Bool-cases (contains l used)) [
  | inl e ↦ omega (arith, used_below-used used l e, used_below_le used l)
  | inr e ↦ omega (arith, used_below-unused used l e, used_below_le used l)
]

-- Two used locals get different ids, in their order.
pub used_below_lt :
    (used : List Local) (k l : Local)
    → contains k used ≡ true
    → k < l
    → used_below used k < used_below used l
used_below_lt used k zero e h = absurd (omega arith)
used_below_lt used k (suc l) e h = elim (Bool-cases (k == l)) [
  | inl same ↦
      let f : k ≡ l = (==_iff k l).0 same in
      rw f (omega (arith, used_below-used used l (rw f at e)))
  | inr other ↦
      let ne : k ≢ l = λ f. cc (other, (==_iff k l).1 f) in
      let below = used_below_lt used k l e (omega arith) in
      elim (Bool-cases (contains l used)) [
        | inl here ↦ omega (arith, used_below-used used l here)
        | inr gone ↦ omega (arith, used_below-unused used l gone)
      ]
]

-- A swap exchanges two entries.
swap-get :
    (xs : List LocalInfo) (a b : Local)
    → a < length xs
    → b < length xs
    → (ys : List LocalInfo) × ((if a == b then xs else swap xs a b) ≡ ys)
      × (length ys ≡ length xs)
      × (get_elem? ys b ≡ get_elem? xs a)
      × ((c : Local) → c ≢ a → c ≢ b → get_elem? ys c ≡ get_elem? xs c)
unfolding swap
swap-get xs a b ha hb = elim (Bool-cases (a == b)) [
  | inl same ↦
      let e : a ≡ b = (==_iff a b).0 same in
      (xs, rw same refl, refl, ap (get_elem? xs) (sym e), λ c _ _. refl)
  | inr other ↦
      let (x, ex) = get_elem?-some xs a ha in
      let (y, ey) = get_elem?-some xs b hb in
      let first = set xs a y in
      let n = length-set xs a y in
      (
        set first b x,
        rw (other, swap, ex, ey) refl,
        length-set first b x ∙ n,
        get_elem?-set_self first b x (rw n hb) ∙ sym ex,
        λ c no_a no_b.
            get_elem?-set_ne first b c x (λ e. no_b (sym e))
            ∙ get_elem?-set_ne xs a c y (λ e. no_a (sym e)),
      )
]

module _ (used : List Local) where
  -- What `renumber` does from the id `l` on, where `xs` are the locals as they are then.
  pub record Moves (n l : ℕ) (xs : List LocalInfo) (r : Renumbering) : Type 0 where
    pub size : length r.locals ≡ length xs
    pub mapped : length r.local_map ≡ n
    pub last : r.next_local ≡ used_below used (l + n)
    pub stays : (p : Local) → p < used_below used l → get_elem? r.locals p ≡ get_elem? xs p
    pub moves :
        (i k : Local)
        → k ≡ l + i
        → i < n
        → contains k used ≡ true
        → (get_elem? r.local_map i ≡ some (some (used_below used k)))
          × (get_elem? r.locals (used_below used k) ≡ get_elem? xs k)

  Moves-used :
      (n l : ℕ) (xs ys : List LocalInfo) (r : Renumbering)
      → contains l used ≡ true
      → Moves n (suc l) ys r
      → length ys ≡ length xs
      → get_elem? ys (used_below used l) ≡ get_elem? xs l
      → ((c : Local) → c ≢ l → c ≢ used_below used l → get_elem? ys c ≡ get_elem? xs c)
      → Moves (suc n) l xs (record r { local_map = some (used_below used l) ∷ r.local_map })
  Moves-used n l xs ys r here m same_size at_next others =
      let next = used_below-used used l here in
      let low = used_below_le used l in
      let e : suc l + n ≡ l + suc n = omega arith in
      record {
        size = m.size ∙ same_size;
        mapped = ap suc m.mapped;
        last = m.last ∙ ap (used_below used) e;
        stays = λ p h. m.stays p (omega arith) ∙ others p (omega arith) (omega arith);
        moves = moved_at;
      }
    where
      moved_at :
          (i k : Local)
          → k ≡ l + i
          → i < suc n
          → contains k used ≡ true
          → (get_elem? (some (used_below used l) ∷ r.local_map) i ≡ some (some (used_below used k)))
            × (get_elem? r.locals (used_below used k) ≡ get_elem? xs k)
      moved_at zero k e h u =
          let f : k ≡ l = omega arith in
          rw f (
            refl,
            m.stays (used_below used l) (omega (arith, used_below-used used l here)) ∙ at_next,
          )
      moved_at (suc i) k e h u =
          let (to, at) = m.moves i k (omega arith) (omega arith) u in
          let low = used_below_le used l in (to, at ∙ others k (omega arith) (omega arith))

  Moves-unused :
      (n l : ℕ) (xs : List LocalInfo) (r : Renumbering)
      → contains l used ≡ false
      → Moves n (suc l) xs r
      → Moves (suc n) l xs (record r { local_map = none ∷ r.local_map })
  Moves-unused n l xs r gone m =
      let same = used_below-unused used l gone in
      let e : suc l + n ≡ l + suc n = omega arith in
      record {
        size = m.size;
        mapped = ap suc m.mapped;
        last = m.last ∙ ap (used_below used) e;
        stays = λ p h. m.stays p (omega arith);
        moves = moved_at;
      }
    where
      moved_at :
          (i k : Local)
          → k ≡ l + i
          → i < suc n
          → contains k used ≡ true
          → (get_elem? (none ∷ r.local_map) i ≡ some (some (used_below used k)))
            × (get_elem? r.locals (used_below used k) ≡ get_elem? xs k)
      moved_at zero k e h u = let f : k ≡ l = omega arith in cc (rw f at u, gone)
      moved_at (suc i) k e h u = m.moves i k (omega arith) (omega arith) u

  pub renumber-Moves :
      (n l : ℕ) (xs : List LocalInfo)
      → l + n ≤ length xs
      → (r : Renumbering) × (renumber used n l xs (used_below used l) ≡ ok r) × Moves n l xs r
  unfolding renumber
  renumber-Moves zero l xs h = (
    record { local_map = []; locals = xs; next_local = used_below used l },
    refl,
    let same : l ≡ l + 0 = omega arith in
        record {
          size = refl;
          mapped = refl;
          last = ap (used_below used) same;
          stays = λ p _. refl;
          moves = λ i k _ none_left. absurd (omega arith);
        },
  )
  renumber-Moves (suc n) l xs h = elim (Bool-cases (contains l used)) [
    | inl here ↦
        let low = used_below_le used l in
        let (ys, swapped, size, at_next, others) =
          swap-get xs l (used_below used l) (omega arith) (omega arith) in
        let (r, run, m) = renumber-Moves n (suc l) ys (omega arith) in
        let run' =
          subst (λ (k : ℕ). renumber used n (suc l) ys k ≡ ok r) (used_below-used used l here)
            run in
        (
          record r { local_map = some (used_below used l) ∷ r.local_map },
          rw (renumber, here, swapped, run') refl,
          Moves-used n l xs ys r here m size at_next others,
        )
    | inr not_here ↦
        let (r, run, m) = renumber-Moves n (suc l) xs (omega arith) in
        let run' =
          subst (λ (k : ℕ). renumber used n (suc l) xs k ≡ ok r) (used_below-unused used l not_here)
            run in
        (
          record r { local_map = none ∷ r.local_map },
          rw (renumber, not_here, run') refl,
          Moves-unused n l xs r not_here m,
        )
  ]
