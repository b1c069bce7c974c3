-- ===== src/Collectors/Agent/Tasks/Laws.antt =====
-- What the lookups of collectors/mesos/agent/agent.go find.
use dcos_metrics.Prelude.{
  ◌≤◌, String, ◌≡◌, refl, sym, ap, ◌∙◌, inl, inr, false, none, some, List, [], ◌∷◌, ◌++◌, arith,
  eq_iff, if◌then◌else◌, Dict, lookup, insert_all, Option-cases, lookup-insert, ltb, insert,
  insert_all-append, latest, lookup-insert_all, byte_length,
}
use dcos_metrics.Collectors.Agent.Tasks.{
  update_statuses, update_tasks, update_executors, update_frameworks, get_labels_by_container_id,
  get, add_labels, update, ContainerTaskRels, task_info, max_label_length, find_container,
}
use dcos_metrics.Collectors.Agent.{
  ExecutorInfo, KeyValue, FrameworkInfo, TaskInfo, TaskStatusInfo, AgentState,
}
use dcos_metrics.Collectors.{is_cosmos}

-- Every container that a status names, with the task it is a status of, in the order of the loops.
abbrev pub of_statuses : TaskInfo → List TaskStatusInfo → Dict TaskInfo
of_statuses t [] = []
of_statuses t (s ∷ ss) = (s.container_id, task_info t) ∷ of_statuses t ss

abbrev pub of_tasks : List TaskInfo → Dict TaskInfo
of_tasks [] = []
of_tasks (t ∷ ts) = of_statuses t t.statuses ++ of_tasks ts

abbrev pub of_executors : List ExecutorInfo → Dict TaskInfo
of_executors [] = []
of_executors (e ∷ es) = of_tasks e.tasks ++ of_executors es

abbrev pub placements : List FrameworkInfo → Dict TaskInfo
placements [] = []
placements (f ∷ fs) = of_executors f.executors ++ placements fs

update_statuses-eq :
    (t : TaskInfo) (ss : List TaskStatusInfo) (rels : ContainerTaskRels)
    → update_statuses t ss rels ≡ insert_all rels (of_statuses t ss)
unfolding update_statuses insert_all
update_statuses-eq t [] rels = refl
update_statuses-eq t (s ∷ ss) rels = update_statuses-eq t ss _

update_tasks-eq :
    (ts : List TaskInfo) (rels : ContainerTaskRels)
    → update_tasks ts rels ≡ insert_all rels (of_tasks ts)
unfolding update_tasks
update_tasks-eq [] rels = unfold insert_all in refl
update_tasks-eq (t ∷ ts) rels =
    update_tasks-eq ts _
    ∙ ap (λ r. insert_all r (of_tasks ts)) (update_statuses-eq t t.statuses rels)
    ∙ sym (insert_all-append rels (of_statuses t t.statuses) (of_tasks ts))

update_executors-eq :
    (es : List ExecutorInfo) (rels : ContainerTaskRels)
    → update_executors es rels ≡ insert_all rels (of_executors es)
unfolding update_executors
update_executors-eq [] rels = unfold insert_all in refl
update_executors-eq (e ∷ es) rels =
    update_executors-eq es _
    ∙ ap (λ r. insert_all r (of_executors es)) (update_tasks-eq e.tasks rels)
    ∙ sym (insert_all-append rels (of_tasks e.tasks) (of_executors es))

update_frameworks-eq :
    (fs : List FrameworkInfo) (rels : ContainerTaskRels)
    → update_frameworks fs rels ≡ insert_all rels (placements fs)
unfolding update_frameworks
update_frameworks-eq [] rels = unfold insert_all in refl
update_frameworks-eq (f ∷ fs) rels =
    update_frameworks-eq fs _
    ∙ ap (λ r. insert_all r (placements fs)) (update_executors-eq f.executors rels)
    ∙ sym (insert_all-append rels (of_executors f.executors) (placements fs))

-- After an update a container has the task of the last status that names it, whatever was known
-- before, and no task if no status names it.
pub get-update :
    (state : AgentState) (ctr : ContainerTaskRels) (container_id : String)
    → get (update state ctr) container_id ≡ latest container_id (placements state.frameworks) none
unfolding get update
get-update state ctr container_id =
    ap (lookup container_id) (update_frameworks-eq state.frameworks [])
    ∙ lookup-insert_all container_id [] (placements state.frameworks)
    ∙ ap (latest container_id (placements state.frameworks)) (unfold lookup in refl)

-- A label that the collector lets through.
abbrev pub IsAllowed : String → String → Type 0
IsAllowed k v = (is_cosmos k ≡ false) × (byte_length v ≤ max_label_length)

add_labels-IsAllowed :
    (l : List KeyValue) (labels : Dict String) (k v : String)
    → ((v' : String) → lookup k labels ≡ some v' → IsAllowed k v')
    → lookup k (add_labels l labels) ≡ some v
    → IsAllowed k v
unfolding add_labels
add_labels-IsAllowed [] labels k v h e = h v e
add_labels-IsAllowed (pair ∷ l) labels k v h e =
    add_labels-IsAllowed l _ k v
      (λ v' e'. ground (arith, h v', lookup-insert pair.key k pair.value labels, eq_iff pair.key k))
      e

-- No label with a key of Cosmos, and no label with a value of more than 128 bytes, is among the labels that are looked up for a container.
pub get_labels_by_container_id-IsAllowed :
    (container_id : String) (frameworks : List FrameworkInfo) (k v : String)
    → lookup k (get_labels_by_container_id container_id frameworks) ≡ some v
    → IsAllowed k v
unfolding get_labels_by_container_id lookup
get_labels_by_container_id-IsAllowed container_id frameworks k v e =
    elim (Option-cases (find_container container_id frameworks)) [
      | inl n ↦ ground (arith, n)
      | inr (x, f) ↦
          add_labels-IsAllowed x.labels [] k v (λ v' e'. ground arith) (ground (arith, f))
    ]

-- The pairs that the collector lets through.
unfoldable pub allowed : List KeyValue → Dict String
allowed [] = []
allowed (pair ∷ l) =
    let rest = allowed l in
    if is_cosmos pair.key
    then rest
    else if ltb max_label_length (byte_length pair.value)
    then rest
    else (pair.key, pair.value) ∷ rest

add_labels-eq :
    (l : List KeyValue) (labels : Dict String) → add_labels l labels ≡ insert_all labels (allowed l)
unfolding add_labels allowed insert_all
add_labels-eq [] labels = refl
add_labels-eq (pair ∷ l) labels =
    ground (arith, add_labels-eq l labels, add_labels-eq l (insert pair.key pair.value labels))

-- Where an executor is found for the container, the labels are those of that executor: under each key the last value that the collector lets through, or none.
pub get_labels_by_container_id-lookup :
    (container_id : String) (frameworks : List FrameworkInfo) (e : ExecutorInfo) (k : String)
    → find_container container_id frameworks ≡ some e
    → lookup k (get_labels_by_container_id container_id frameworks)
      ≡ latest k (allowed e.labels) none
unfolding get_labels_by_container_id
get_labels_by_container_id-lookup container_id frameworks e k f =
    rw (f, get_labels_by_container_id)
      (ap (lookup k) (add_labels-eq e.labels [])
        ∙ lookup-insert_all k [] (allowed e.labels)
        ∙ ap (latest k (allowed e.labels)) (unfold lookup in refl))
