-- ===== src/Mir/Passes/DeadStore/Tests.antt =====
-- `DeadStoreElim` on a concrete body, and on a machine of numbers.
use kli.Prelude.{
  ℕ, ◌+◌, ◌≡◌, refl, ap, ◌∙◌, false, Option, none, some, List, [], ◌∷◌, ◌++◌, In, ◌==◌, ==_iff, ltb,
  if◌then◌else◌, Bool-cases, inl, inr,
}
use kli.Prelude.Int.{pos}
use kli.Prelude.Outcome.{ok}
use kli.Types.{Ty}
use kli.Lex.Tokens.{SrcLoc}
use kli.Mir.Syntax.{
  Local, PlaceProjection, deref, index, constant_index, case_downcast, Operand, load, constant,
  ConstValue, scalar, Place, PlaceBase, local, return_place, Rvalue, read_line, uninit_zeroed,
  aggregate, use_of, call, binary, array_ptr, cast, len, discriminant, gc_alloc, return, StmtKind,
  noop, assign, print, copy, temp, Body,
}
use kli.Mir.Places.{params_from, can_remove_if_unused}
use kli.Mir.Graph.{contains}
use kli.Mir.Graph.Reach.{In-contains}
use kli.Mir.Runs.{Machine, Final, Finishes}
use kli.Mir.Visit.{visit_body}
use kli.Mir.Visit.Mentions.{
  in_projections, in_base, in_place, in_operand, in_operands, in_rvalue, is_indirect, through,
  depends_stmt,
}
use kli.Mir.Passes.DeadStore.{find_read, dead_store_elim}
use kli.Mir.Passes.DeadStore.Agrees.{Frames, Within, Within-both, dead_store_elim_preserves}

-- The memory of a machine of numbers: the locals, the place of the result, and what lies behind
-- pointers and in arrays.
record Memory : Type 0 where
  pub env : Local → ℕ
  pub result : ℕ
  pub heap : ℕ → ℕ

abbrev update : (ℕ → ℕ) → ℕ → ℕ → ℕ → ℕ
update f a v = λ k. if a == k then v else f k

abbrev base_value : Memory → PlaceBase → ℕ
base_value s (local l) = s.env l
base_value s return_place = s.result

-- Where an indirect projection of a value lies. A field of a value is the value.
abbrev address : Memory → ℕ → PlaceProjection → Option ℕ
address s v deref = some v
address s v (index l) = some (v + s.env l)
address s v (constant_index i) = some (v + i)
address s v (PlaceProjection.field _) = none
address s v (case_downcast _ _) = none

abbrev content : Memory → ℕ → Option ℕ → ℕ
content s v none = v
content s v (some a) = s.heap a

abbrev walk : Memory → ℕ → List PlaceProjection → ℕ
walk s v [] = v
walk s v (p ∷ ps) = walk s (content s v (address s v p)) ps

-- The address to which a place is written, or `none` for the base itself.
abbrev target : Memory → ℕ → Option ℕ → List PlaceProjection → Option ℕ
target s v o [] = o
target s v o (p ∷ ps) =
    target s (content s v (address s v p)) (elim (address s v p) [ none ↦ o | some a ↦ some a ]) ps

abbrev place_value : Memory → Place → ℕ
place_value s place = walk s (base_value s place.base) place.projections

abbrev const_number : ConstValue → ℕ
const_number (scalar (pos n)) = n
const_number _ = 0

abbrev operand_value : Memory → Operand → ℕ
operand_value s (load place) = place_value s place
operand_value s (constant c) = const_number c.value

abbrev sum_values : Memory → List Operand → ℕ
sum_values s [] = 0
sum_values s (o ∷ os) = operand_value s o + sum_values s os

abbrev rvalue_value : Memory → Rvalue → ℕ
rvalue_value s (gc_alloc _ o) = operand_value s o
rvalue_value s (uninit_zeroed _) = 0
rvalue_value s read_line = 0
rvalue_value s (discriminant place) = place_value s place
rvalue_value s (len place) = place_value s place
rvalue_value s (use_of o) = operand_value s o
rvalue_value s (aggregate _ os) = sum_values s os
rvalue_value s (call o os) = operand_value s o + sum_values s os
rvalue_value s (binary _ l r) = operand_value s l + operand_value s r
rvalue_value s (array_ptr place) = place_value s place
rvalue_value s (cast _ o _) = operand_value s o

abbrev write_base : Memory → PlaceBase → ℕ → Memory
write_base s (local l) v = record s { env = update s.env l v }
write_base s return_place v = record s { result = v }

abbrev write_at : Memory → PlaceBase → Option ℕ → ℕ → Memory
write_at s base none v = write_base s base v
write_at s base (some a) v = record s { heap = update s.heap a v }

abbrev place_target : Memory → Place → Option ℕ
place_target s place = target s (base_value s place.base) none place.projections

abbrev step : StmtKind → Memory → Memory
step noop s = s
step (assign place r) s = write_at s place.base (place_target s place) (rvalue_value s r)
step (print _ _) s = s
step (copy dst src _) s = record s {
  heap = update s.heap (operand_value s dst) (s.heap (operand_value s src));
}

abbrev numbers : Machine
numbers = record {
  State = Memory;
  exec = λ k s t. t ≡ step k s;
  eval = λ o s v. v ≡ pos (operand_value s o);
  check = λ o _ s b. b ≡ ltb 0 (operand_value s o);
}

-- The same locals of a list, the same result and the same heap.
abbrev Agrees : List Local → Memory → Memory → Type 0
Agrees ls s u =
    ((l : Local) → In l ls → s.env l ≡ u.env l) × (s.result ≡ u.result) × (s.heap ≡ u.heap)

module _ (ls : List Local) (s u : Memory) (agree : Agrees ls s u) where
  base-Agrees :
      (base : PlaceBase) → Within (in_base base) ls → base_value s base ≡ base_value u base
  base-Agrees (local l) h = agree.0 l (h l (inl refl))
  base-Agrees return_place h = agree.1

  address-Agrees :
      (v : ℕ) (p : PlaceProjection)
      → Within (in_projections (p ∷ [])) ls
      → address s v p ≡ address u v p
  address-Agrees v deref h = refl
  address-Agrees v (index l) h = rw (agree.0 l (h l (inl refl))) refl
  address-Agrees v (constant_index i) h = refl
  address-Agrees v (PlaceProjection.field _) h = refl
  address-Agrees v (case_downcast _ _) h = refl

  content-Agrees : (v : ℕ) (o : Option ℕ) → content s v o ≡ content u v o
  content-Agrees v none = refl
  content-Agrees v (some a) = ap (λ (f : ℕ → ℕ). f a) agree.2

  Within-first :
      (p : PlaceProjection) (ps : List PlaceProjection)
      → Within (in_projections (p ∷ ps)) ls
      → Within (in_projections (p ∷ [])) ls × Within (in_projections ps) ls
  Within-first (index l) ps h =
      (λ k i. elim i [ inl e ↦ h k (inl e) | inr n ↦ absurd n ], λ k i. h k (inr i))
  Within-first deref ps h = (λ k i. absurd i, h)
  Within-first (constant_index _) ps h = (λ k i. absurd i, h)
  Within-first (PlaceProjection.field _) ps h = (λ k i. absurd i, h)
  Within-first (case_downcast _ _) ps h = (λ k i. absurd i, h)

  walk-Agrees :
      (v : ℕ) (ps : List PlaceProjection)
      → Within (in_projections ps) ls
      → walk s v ps ≡ walk u v ps
  walk-Agrees v [] h = refl
  walk-Agrees v (p ∷ ps) h =
      let (here, others) = Within-first p ps h in
      rw (address-Agrees v p here, content-Agrees v (address u v p))
        (walk-Agrees (content u v (address u v p)) ps others)

  target-Agrees :
      (v : ℕ) (o : Option ℕ) (ps : List PlaceProjection)
      → Within (in_projections ps) ls
      → target s v o ps ≡ target u v o ps
  target-Agrees v o [] h = refl
  target-Agrees v o (p ∷ ps) h =
      let (here, others) = Within-first p ps h in
      rw (address-Agrees v p here, content-Agrees v (address u v p))
        (target-Agrees (content u v (address u v p))
          (elim (address u v p) [ none ↦ o | some a ↦ some a ]) ps others)

  place-Agrees :
      (place : Place) → Within (in_place place) ls → place_value s place ≡ place_value u place
  place-Agrees place h =
      let (base, inside) =
        Within-both (in_base place.base) (in_projections place.projections) ls h in
      rw (base-Agrees place.base base)
        (walk-Agrees (base_value u place.base) place.projections inside)

  operand-Agrees : (o : Operand) → Within (in_operand o) ls → operand_value s o ≡ operand_value u o
  operand-Agrees (load place) h = place-Agrees place h
  operand-Agrees (constant c) h = refl

  sum-Agrees : (os : List Operand) → Within (in_operands os) ls → sum_values s os ≡ sum_values u os
  sum-Agrees [] h = refl
  sum-Agrees (o ∷ os) h =
      let (here, others) = Within-both (in_operand o) (in_operands os) ls h in
      rw (operand-Agrees o here, sum-Agrees os others) refl

  rvalue-Agrees : (r : Rvalue) → Within (in_rvalue r) ls → rvalue_value s r ≡ rvalue_value u r
  rvalue-Agrees (gc_alloc _ o) h = operand-Agrees o h
  rvalue-Agrees (uninit_zeroed _) h = refl
  rvalue-Agrees read_line h = refl
  rvalue-Agrees (discriminant place) h = place-Agrees place h
  rvalue-Agrees (len place) h = place-Agrees place h
  rvalue-Agrees (use_of o) h = operand-Agrees o h
  rvalue-Agrees (aggregate _ os) h = sum-Agrees os h
  rvalue-Agrees (call o os) h =
      let (here, others) = Within-both (in_operand o) (in_operands os) ls h in
      rw (operand-Agrees o here, sum-Agrees os others) refl
  rvalue-Agrees (binary _ l r) h =
      let (left, right) = Within-both (in_operand l) (in_operand r) ls h in
      rw (operand-Agrees l left, operand-Agrees r right) refl
  rvalue-Agrees (array_ptr place) h = place-Agrees place h
  rvalue-Agrees (cast _ o _) h = operand-Agrees o h

  update-Agrees : (k l : Local) (v : ℕ) → In l ls → update s.env k v l ≡ update u.env k v l
  update-Agrees k l v i = elim (Bool-cases (k == l)) [
    | inl same ↦ rw same refl
    | inr other ↦ rw other (agree.0 l i)
  ]

  write_at-Agrees :
      (base : PlaceBase) (o : Option ℕ) (v : ℕ)
      → Agrees ls (write_at s base o v) (write_at u base o v)
  write_at-Agrees (local k) none v = (λ l i. update-Agrees k l v i, agree.1, agree.2)
  write_at-Agrees return_place none v = (agree.0, refl, agree.2)
  write_at-Agrees base (some a) v = (agree.0, agree.1, ap (λ (f : ℕ → ℕ). update f a v) agree.2)

-- A place that lies in its base is written there, whatever the base holds.
target-direct :
    (s : Memory) (v : ℕ) (ps : List PlaceProjection)
    → is_indirect ps ≡ false
    → target s v none ps ≡ none
target-direct s v [] h = refl
target-direct s v (index _ ∷ ps) h = cc
target-direct s v (constant_index _ ∷ ps) h = cc
target-direct s v (deref ∷ ps) h = cc
target-direct s v (PlaceProjection.field _ ∷ ps) h = target-direct s v ps h
target-direct s v (case_downcast _ _ ∷ ps) h = target-direct s v ps h

place_target-Agrees :
    (ls : List Local) (s u : Memory) (place : Place)
    → Agrees ls s u
    → Within (through place) ls
    → place_target s place ≡ place_target u place
place_target-Agrees ls s u place agree h = elim (Bool-cases (is_indirect place.projections)) [
  | inl e ↦
      let (base, inside) =
        Within-both (in_base place.base) (in_projections place.projections) ls (rw e at h) in
      rw (base-Agrees ls s u agree place.base base)
        (target-Agrees ls s u agree (base_value u place.base) none place.projections inside)
  | inr e ↦
      rw
        (
          target-direct s (base_value s place.base) place.projections e,
          target-direct u (base_value u place.base) place.projections e,
        )
        refl
]

step-Agrees :
    (ls : List Local) (k : StmtKind) (s u : Memory)
    → Within (depends_stmt k) ls
    → Agrees ls s u
    → Agrees ls (step k s) (step k u)
step-Agrees ls noop s u h agree = agree
step-Agrees ls (print _ _) s u h agree = agree
step-Agrees ls (assign place r) s u h agree =
    let (written, value) = Within-both (through place) (in_rvalue r) ls h in
    rw (place_target-Agrees ls s u place agree written, rvalue-Agrees ls s u agree r value)
      (write_at-Agrees ls s u agree place.base (place_target u place) (rvalue_value u r))
step-Agrees ls (copy dst src count) s u h agree =
    let (to, others) = Within-both (in_operand dst) (in_operand src ++ in_operand count) ls h in
    let (from, _) = Within-both (in_operand src) (in_operand count) ls others in
    (
      agree.0,
      agree.1,
      rw (operand-Agrees ls s u agree dst to, operand-Agrees ls s u agree src from)
          (ap (λ (f : ℕ → ℕ). update f (operand_value u dst) (f (operand_value u src))) agree.2),
    )

write-other :
    (ls : List Local) (s u : Memory) (l : Local) (v : ℕ)
    → contains l ls ≡ false
    → Agrees ls s u
    → Agrees ls (write_base s (local l) v) u
write-other ls s u l v unread agree = (
  λ k i. elim (Bool-cases (l == k)) [
    | inl same ↦ let e : l ≡ k = (==_iff l k).0 same in cc (unread, In-contains l ls (rw e i))
    | inr other ↦ rw other (agree.0 k i)
  ],
  agree.1,
  agree.2,
)

Frames-numbers : Frames numbers Agrees
Frames-numbers = record {
  same = λ ls s. (λ l i. refl, refl, refl);
  nothing = λ s. refl;
  ignores = λ ls place l r s t u base bare pure unread run agree.
      rw (run, base, bare) (write-other ls s u l (rvalue_value s r) unread agree);
  follows =
      λ ls k s t u reads run agree. (step k u, refl, rw run (step-Agrees ls k s u reads agree));
  evals = λ ls o s u v reads e agree. e ∙ ap pos (operand-Agrees ls s u agree o reads);
  checks = λ ls o k s u b reads e agree. e ∙ ap (ltb 0) (operand-Agrees ls s u agree o reads);
}

abbrev somewhere : SrcLoc
somewhere = record { line = 1; file = 0 }

abbrev place_of : Local → Place
place_of l = record { base = local l; projections = [] }

abbrev pointed : Place
pointed = record { base = local 1; projections = deref ∷ [] }

abbrev seven : Operand
seven = constant (record { ty = Ty.bool; value = scalar (pos 7) })

-- The first local is assigned, and the second is stored through and printed.
abbrev storing : Body
storing = record {
  src = 0;
  return_type = Ty.bool;
  locals = record { ty = Ty.bool; kind = temp } ∷ record { ty = Ty.bool; kind = temp } ∷ [];
  blocks =
      record {
        stmts =
            record { loc = somewhere; kind = assign (place_of 0) (uninit_zeroed Ty.bool) }
            ∷ record { loc = somewhere; kind = assign pointed (use_of seven) }
            ∷ record { loc = somewhere; kind = print (load (place_of 1)) false }
            ∷ [];
        terminator = some (record { src_info = somewhere; kind = return });
      }
      ∷ [];
}

dead_store_elim-storing :
    dead_store_elim storing
    ≡ ok (record storing {
      blocks =
          record {
            stmts =
                record { loc = somewhere; kind = noop }
                ∷ record { loc = somewhere; kind = assign pointed (use_of seven) }
                ∷ record { loc = somewhere; kind = print (load (place_of 1)) false }
                ∷ [];
            terminator = some (record { src_info = somewhere; kind = return });
          }
          ∷ [];
    })
unfolding dead_store_elim params_from can_remove_if_unused
dead_store_elim-storing = refl

dead_store_elim_preserves_example :
    (locals : List Local) × (body : Body) × (visit_body find_read storing
        (params_from 0 storing.locals)
      ≡ ok locals)
    × (dead_store_elim storing ≡ ok body)
    × ((s w : Memory) (x : Final)
        → Finishes numbers storing.blocks 0 s x w
        → (v : Memory) × Finishes numbers body.blocks 0 s x v × Agrees locals w v)
dead_store_elim_preserves_example =
    dead_store_elim_preserves numbers Agrees storing Frames-numbers ((_, refl), tt)
      (λ l i. inl (elim i [ inl e ↦ inl e | inr j ↦ j ]))
