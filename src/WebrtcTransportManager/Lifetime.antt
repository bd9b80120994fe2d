-- ===== src/WebrtcTransportManager/Lifetime.antt =====
-- A transport is stopped exactly when its removal comes after its addition.
use webrtc_stream_server.Prelude.{
  ℕ, ◌≡◌, refl, ◌∙◌, Bool, true, false, List, [], ◌∷◌, ◌++◌, ◌==◌, ==_iff, All, inl, inr,
  Bool-cases, arith,
}
use webrtc_stream_server.WebrtcTransportManager.{
  Task, insert_task, remove_task, WebrtcTransportManager, contains, insert, erase, run_task,
  run_tasks,
}

-- The task is about another transport.
unfoldable pub IsOther : ℕ → Task → Type 0
IsOther transport (insert_task t) = (t == transport) ≡ false
IsOther transport (remove_task t) = (t == transport) ≡ false

contains-insert : (ts : List ℕ) (t : ℕ) → contains (insert ts t) t ≡ true
unfolding insert contains
contains-insert ts t = elim (Bool-cases (contains ts t)) [
  | inl there ↦ rw there there
  | inr absent ↦ rw absent (ground arith)
]

contains-insert_ne :
    (ts : List ℕ) (t transport : ℕ)
    → (t == transport) ≡ false
    → contains (insert ts t) transport ≡ contains ts transport
unfolding insert contains
contains-insert_ne ts t transport ne = elim (Bool-cases (contains ts t)) [
  | inl there ↦ rw there refl
  | inr absent ↦ rw (absent, ne) refl
]

contains-erase : (ts : List ℕ) (t : ℕ) → contains (erase ts t) t ≡ false
unfolding erase contains
contains-erase [] t = refl
contains-erase (x ∷ xs) t = elim (Bool-cases (x == t)) [
  | inl same ↦ rw same (contains-erase xs t)
  | inr other ↦ rw (other, other) (contains-erase xs t)
]

contains-erase_ne :
    (ts : List ℕ) (t transport : ℕ)
    → (t == transport) ≡ false
    → contains (erase ts t) transport ≡ contains ts transport
unfolding erase contains
contains-erase_ne [] t transport ne = refl
contains-erase_ne (x ∷ xs) t transport ne = elim (Bool-cases (x == t)) [
  | inl same ↦
      let (to, from) = ==_iff x t in
      rw same (rw (to same, ne) (contains-erase_ne xs t transport ne))
  | inr other ↦ elim (Bool-cases (x == transport)) [
    | inl this ↦ rw (other, this) refl
    | inr later ↦ rw (other, later) (contains-erase_ne xs t transport ne)
  ]
]

-- Whether a transport is in the set, and whether it has been stopped.
abbrev Stands : ℕ → WebrtcTransportManager → Bool → Bool → Type 0
Stands transport m inside ended =
    (contains m.webrtc_transports transport ≡ inside) × (contains m.stopped transport ≡ ended)

Stands-run_task :
    (transport : ℕ) (m : WebrtcTransportManager) (task : Task) (inside ended : Bool)
    → IsOther transport task
    → Stands transport m inside ended
    → Stands transport (run_task m task) inside ended
unfolding run_task IsOther
Stands-run_task transport m (insert_task t) inside ended ne (h, k) =
    (contains-insert_ne m.webrtc_transports t transport ne ∙ h, k)
Stands-run_task transport m (remove_task t) inside ended ne (h, k) =
    elim (Bool-cases (contains m.webrtc_transports t)) [
      | inl there ↦
          simp there
            (contains-erase_ne m.webrtc_transports t transport ne ∙ h, unfold contains in (rw ne k))
      | inr absent ↦ simp absent (h, k)
    ]

Stands-run_tasks :
    (transport : ℕ) (m : WebrtcTransportManager) (tasks : List Task) (inside ended : Bool)
    → All (IsOther transport) tasks
    → Stands transport m inside ended
    → Stands transport (run_tasks m tasks) inside ended
unfolding run_tasks
Stands-run_tasks transport m [] inside ended others h = h
Stands-run_tasks transport m (task ∷ tasks) inside ended (other, others) h =
    Stands-run_tasks transport (run_task m task) tasks inside ended others
      (Stands-run_task transport m task inside ended other h)

run_tasks-append :
    (m : WebrtcTransportManager) (xs ys : List Task)
    → run_tasks m (xs ++ ys) ≡ run_tasks (run_tasks m xs) ys
unfolding run_tasks
run_tasks-append m [] ys = refl
run_tasks-append m (x ∷ xs) ys = run_tasks-append (run_task m x) xs ys

Stands-inserted :
    (transport : ℕ) (m : WebrtcTransportManager) (ended : Bool)
    → contains m.stopped transport ≡ ended
    → Stands transport (run_task m (insert_task transport)) true ended
unfolding run_task
Stands-inserted transport m ended k = (contains-insert m.webrtc_transports transport, k)

Stands-removed :
    (transport : ℕ) (m : WebrtcTransportManager)
    → contains m.webrtc_transports transport ≡ true
    → Stands transport (run_task m (remove_task transport)) false true
unfolding run_task
Stands-removed transport m there =
    simp there (contains-erase m.webrtc_transports transport, unfold contains in ground arith)

Stands-missed :
    (transport : ℕ) (m : WebrtcTransportManager)
    → Stands transport m false false
    → Stands transport (run_task m (remove_task transport)) false false
unfolding run_task
Stands-missed transport m (h, k) = simp h (refl, k)

-- The manager runs its tasks in the order of their posting. A transport that is added and later removed,
-- with tasks of other transports around, ends outside the set and stopped. When its removal is posted
-- before its addition, it ends inside the set and is not stopped.
pub run_tasks-stopped :
    (transport : ℕ) (m : WebrtcTransportManager) (before between behind : List Task)
    → contains m.webrtc_transports transport ≡ false
    → contains m.stopped transport ≡ false
    → All (IsOther transport) before
    → All (IsOther transport) between
    → All (IsOther transport) behind
    → Stands transport
        (run_tasks m
          (before ++ (insert_task transport ∷ (between ++ (remove_task transport ∷ behind)))))
        false
        true
      × Stands transport
          (run_tasks m
            (before ++ (remove_task transport ∷ (between ++ (insert_task transport ∷ behind)))))
          true
          false
run_tasks-stopped transport m before between behind h k others others' others'' =
    let first = insert_task transport in
    let last = remove_task transport in
    let m0 = run_tasks m before in
    let start = Stands-run_tasks transport m before false false others (h, k) in
    let in1 =
      Stands-run_tasks transport (run_task m0 first) between true false others'
        (Stands-inserted transport m0 false start.1) in
    let m1 = run_tasks (run_task m0 first) between in
    let m2 = run_tasks (run_task m0 last) between in
    let missed =
      Stands-run_tasks transport (run_task m0 last) between false false others'
        (Stands-missed transport m0 start) in
    let one =
      Stands-run_tasks transport (run_task m1 last) behind false true others''
        (Stands-removed transport m1 in1.0) in
    let two =
      Stands-run_tasks transport (run_task m2 first) behind true false others''
        (Stands-inserted transport m2 false missed.1) in
    (
      rw (run_tasks-append m before (first ∷ (between ++ (last ∷ behind)))) (
          unfold run_tasks in
          rw (run_tasks-append (run_task m0 first) between (last ∷ behind))
            (unfold run_tasks in one)),
      rw (run_tasks-append m before (last ∷ (between ++ (first ∷ behind)))) (
          unfold run_tasks in
          rw (run_tasks-append (run_task m0 last) between (first ∷ behind))
            (unfold run_tasks in two)),
    )
