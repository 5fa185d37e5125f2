-- ===== src/Operator/Manager/Trained.antt =====
-- The regression task of a graph, and the bound that its operators are trained for.
use meta_pb.Common.{
  All, ==_refl, if_true, if_false, none, some, map, ◌%◌, ◌/◌, ℕ, ◌≤◌, ◌<◌, ◌^◌, ◌≡◌, refl, sym, ◌∙◌,
  subst, List, [], ◌∷◌, true, ◌⊎◌, inl, inr, In, arith, Bool-cases, if◌then◌else◌, ltb,
}
use meta_pb.Common.Real.{Real}
use meta_pb.Executor.Graph.{TaskGraph, TaskProperties}
use meta_pb.Operator.Pages.{get_nearest_page_blk_cnt}
use meta_pb.Operator.Registry.{OperatorTag, index, same_tag, map_op, reduce_op}
use meta_pb.Operator.Samples.{Model, untrained}
use meta_pb.Operator.Samples.Train.{train_model-bound}
use meta_pb.Operator.Manager.{
  RegressionTask, note_size, note_sizes, gen_regression_task, max_blk, World, OpMap, put_op,
  contained, train_op, train_ops, train_task, check_if_is_trainable, check_if_is_cpu_only,
}

-- The task asks for at least `size` of the operator with the tag's index.
pub Asks : RegressionTask → OperatorTag → ℕ → Type 0
Asks [] op size = ⊥
Asks ((t, n) ∷ rest) op size = ((same_tag t op ≡ true) × (size ≤ n)) ⊎ Asks rest op size

max_left : (n size : ℕ) → size ≤ (if ltb n size then size else n)
max_left n size = ground arith

max_right : (n size : ℕ) → n ≤ (if ltb n size then size else n)
max_right n size = ground arith

le_max : (s n size : ℕ) → s ≤ n → s ≤ (if ltb n size then size else n)
le_max s n size h = ground arith

note_size-Asks :
    (task : RegressionTask) (op : OperatorTag) (size : ℕ) → Asks (note_size task op size) op size
unfolding note_size Asks
note_size-Asks [] op size = inl (==_refl (index op), omega arith)
note_size-Asks ((t, n) ∷ rest) op size = elim (Bool-cases (same_tag t op)) [
  | inl y ↦ rw y (inl (y, max_left n size))
  | inr k ↦ elim (Bool-cases (ltb (index op) (index t))) [
    | inl y ↦ rw (k, y) (inl (==_refl (index op), omega arith))
    | inr z ↦ rw (k, z) (inr (note_size-Asks rest op size))
  ]
]

note_size-keeps :
    (task : RegressionTask) (op : OperatorTag) (size : ℕ) (o : OperatorTag) (s : ℕ)
    → Asks task o s
    → Asks (note_size task op size) o s
unfolding note_size Asks
note_size-keeps [] op size o s h = absurd h
note_size-keeps ((t, n) ∷ rest) op size o s h = elim (Bool-cases (same_tag t op)) [
  | inl y ↦ rw y (elim h [ inl (e, l) ↦ inl (e, le_max s n size l) | inr m ↦ inr m ])
  | inr k ↦ elim (Bool-cases (ltb (index op) (index t))) [
    | inl y ↦ rw (k, y) (inr h)
    | inr z ↦
        rw (k, z) (elim h [ inl e ↦ inl e | inr m ↦ inr (note_size-keeps rest op size o s m) ])
  ]
]

note_sizes-keeps :
    {A : Type 0} (of : A → OperatorTag × ℕ) (task : RegressionTask) (vs : List A) (o : OperatorTag)
    (s : ℕ)
    → Asks task o s
    → Asks (note_sizes of task vs) o s
unfolding note_sizes
note_sizes-keeps of task [] o s h = h
note_sizes-keeps of task (v ∷ vs) o s h =
    note_sizes-keeps of (note_size task (of v).0 (of v).1) vs o s
      (note_size-keeps task (of v).0 (of v).1 o s h)

note_sizes-Asks :
    {A : Type 0} (of : A → OperatorTag × ℕ) (task : RegressionTask) (vs : List A) (v : A)
    → In v vs
    → Asks (note_sizes of task vs) (of v).0 (of v).1
unfolding note_sizes
note_sizes-Asks of task (w ∷ vs) v (inl e) =
    subst (λ u. Asks (note_sizes of (note_size task (of w).0 (of w).1) vs) (of u).0 (of u).1)
      (sym e)
      (note_sizes-keeps of (note_size task (of w).0 (of w).1) vs (of w).0 (of w).1
        (note_size-Asks task (of w).0 (of w).1))
note_sizes-Asks of task (w ∷ vs) v (inr m) =
    note_sizes-Asks of (note_size task (of w).0 (of w).1) vs v m
note_sizes-Asks of task [] v m = absurd m

-- Every size of the task is small enough for the page block arithmetic.
abbrev pub Sizes : RegressionTask → Type 0
Sizes task = All (λ (entry : OperatorTag × ℕ). entry.1 ≤ 2 ^ 35) task

get_nearest_page_blk_cnt_mono :
    (a b : ℕ) → a ≤ b → b ≤ 2 ^ 35 → get_nearest_page_blk_cnt a ≤ get_nearest_page_blk_cnt b
unfolding get_nearest_page_blk_cnt
get_nearest_page_blk_cnt_mono a b h k = omega arith

max_blk-base : (task : RegressionTask) (m : ℕ) → m ≤ max_blk task m
unfolding max_blk
max_blk-base [] m = omega arith
max_blk-base ((op, size) ∷ task) m =
    let blk = get_nearest_page_blk_cnt size in
    omega (arith, max_right m blk, max_blk-base task (if ltb m blk then blk else m))

max_blk-Asks :
    (task : RegressionTask) (m : ℕ) (o : OperatorTag) (s : ℕ)
    → Sizes task
    → Asks task o s
    → get_nearest_page_blk_cnt s ≤ max_blk task m
unfolding max_blk Asks
max_blk-Asks [] m o s small h = absurd h
max_blk-Asks ((op, size) ∷ task) m o s small (inl (e, l)) =
    let blk = get_nearest_page_blk_cnt size in
    omega (
      arith,
      max_left m blk,
      max_blk-base task (if ltb m blk then blk else m),
      get_nearest_page_blk_cnt_mono s size l small.0,
    )
max_blk-Asks ((op, size) ∷ task) m o s small (inr k) =
    max_blk-Asks task
      (if ltb m (get_nearest_page_blk_cnt size) then get_nearest_page_blk_cnt size else m) o s
      small.1 k

-- Where its sizes are up to 2 ^ 35 MiB, the regression task of a graph has, for each vertex, an entry of
-- its operator and at least its size, and the bound for which the manager trains its operators is at
-- least the page blocks of each vertex.
pub gen_regression_task-covers :
    (R : Real) (g : TaskGraph R) (v : TaskProperties R)
    → Sizes (gen_regression_task R g)
    → In v g.vertices
    → Asks (gen_regression_task R g) v.op v.input_size_mib
      × (get_nearest_page_blk_cnt v.input_size_mib ≤ max_blk (gen_regression_task R g) 0)
unfolding gen_regression_task
gen_regression_task-covers R g v small m =
    let asked =
      note_sizes-Asks (λ (u : TaskProperties R). (u.op, u.input_size_mib)) [] g.vertices v m in
    (asked, max_blk-Asks _ 0 v.op v.input_size_mib small asked)

-- The operator with the tag is there, and trained for the bound.
abbrev pub IsBounded : (R : Real) → (upper : ℕ) → OpMap R → OperatorTag → Type 0
IsBounded R upper ops op =
    (m : Model R) × (ops op ≡ some m) × (m.deduce_page_blk_upper_bound ≡ upper)

module _ (R : Real) (world : World R) (upper : ℕ)
    (no_files : (op : OperatorTag) → world.cpu_file op upper ≡ none) (enough : 15 ≤ upper)
    (small : upper < 2 ^ 31) (even : upper % 15 ≤ upper / 15) where
  put_op-here :
      (ops : OpMap R) (op t : OperatorTag) (m : Model R)
      → same_tag op t ≡ true
      → m.deduce_page_blk_upper_bound ≡ upper
      → IsBounded R upper (put_op R ops op m) t
  put_op-here ops op t m e b = (m, if_true (same_tag op t) (some m) (ops t) e, b)

  put_op-keeps :
      (ops : OpMap R) (op t : OperatorTag) (m : Model R)
      → m.deduce_page_blk_upper_bound ≡ upper
      → IsBounded R upper ops t
      → IsBounded R upper (put_op R ops op m) t
  put_op-keeps ops op t m b (n, e, k) = elim (Bool-cases (same_tag op t)) [
    | inl y ↦ put_op-here ops op t m y b
    | inr z ↦ (n, if_false (same_tag op t) (some m) (ops t) z ∙ e, k)
  ]

  train_op-total :
      (ops : OpMap R) (op : OperatorTag) (m : Model R)
      → (ops' : OpMap R) × (train_op R world ops op m upper ≡ some ops')
        × ((t : OperatorTag) → same_tag op t ≡ true → IsBounded R upper ops' t)
        × ((t : OperatorTag) → IsBounded R upper ops t → IsBounded R upper ops' t)
  unfolding train_op
  train_op-total ops op m =
      let (t, e, b) =
        train_model-bound (check_if_is_trainable op) (check_if_is_cpu_only op)
          (world.dpu_file op upper) (world.probe_cpu op) (world.probe_dpu op) m upper enough small
          even in
      (
        put_op R ops op t,
        rw (no_files op, e) refl,
        λ u y. put_op-here ops op u t y b,
        λ u k. put_op-keeps ops op u t b k,
      )

  -- The tag is one of the list.
  abbrev TagIn : OperatorTag → List OperatorTag → Type 0
  TagIn op [] = ⊥
  TagIn op (t ∷ ts) = (same_tag t op ≡ true) ⊎ TagIn op ts

  train_ops-total :
      (tags : List OperatorTag) (ops : OpMap R)
      → (ops' : OpMap R) × (train_ops R world tags upper ops ≡ some ops')
        × ((t : OperatorTag) → TagIn t tags → IsBounded R upper ops' t)
        × ((t : OperatorTag) → IsBounded R upper ops t → IsBounded R upper ops' t)
  unfolding train_ops
  train_ops-total [] ops = (ops, refl, λ t m. absurd m, λ t k. k)
  train_ops-total (op ∷ tags) ops =
      let (ops1, e1, here, keeps) = train_op-total ops op (contained R (ops op)) in
      let (ops2, e2, there, keeps') = train_ops-total tags ops1 in
      (
        ops2,
        rw (e1, e2) refl,
        λ t m. elim m [ inl y ↦ keeps' t (here t y) | inr k ↦ there t k ],
        λ t k. keeps' t (keeps t k),
      )

  Asks-TagIn :
      (task : RegressionTask) (op : OperatorTag) (size : ℕ)
      → Asks task op size
      → TagIn op (map (λ entry. entry.0) task)
  unfolding Asks
  Asks-TagIn [] op size h = absurd h
  Asks-TagIn ((t, n) ∷ task) op size (inl (e, l)) = inl e
  Asks-TagIn ((t, n) ∷ task) op size (inr k) = inr (Asks-TagIn task op size k)

  -- Where no samples are cached, the sizes are up to 2 ^ 35 MiB, and the bound of a graph's regression
  -- task is below 2 ^ 31 and has a quotient by 15 that is positive and no less than its remainder:
  -- training succeeds. Then the operator of each vertex is
  -- there and trained for a bound of at least the vertex's page blocks, and both transfers are trained
  -- for the bound.
  pub train_task-bound :
      (g : TaskGraph R) (ops : OpMap R)
      → Sizes (gen_regression_task R g)
      → max_blk (gen_regression_task R g) 0 ≡ upper
      → (ops' : OpMap R) × (train_task R world (gen_regression_task R g) ops ≡ some ops')
        × ((v : TaskProperties R)
            → In v g.vertices
            → IsBounded R upper ops' v.op × (get_nearest_page_blk_cnt v.input_size_mib ≤ upper))
        × IsBounded R upper ops' map_op
        × IsBounded R upper ops' reduce_op
  unfolding train_task
  train_task-bound g ops sizes e =
      let (ops1, e1, there, keeps1) =
        train_ops-total (map (λ entry. entry.0) (gen_regression_task R g)) ops in
      let (ops2, e2, here2, keeps2) = train_op-total ops1 map_op (untrained R) in
      let (ops3, e3, here3, keeps3) = train_op-total ops2 reduce_op (untrained R) in
      (
        ops3,
        rw (e, e1, e2) e3,
        λ v m.
            let (asked, covered) = gen_regression_task-covers R g v sizes m in
            (
              keeps3 v.op (keeps2 v.op (there v.op (Asks-TagIn _ v.op v.input_size_mib asked))),
              subst (λ z. get_nearest_page_blk_cnt v.input_size_mib ≤ z) e covered,
            ),
        keeps3 map_op (here2 map_op refl),
        here3 reduce_op refl,
      )
