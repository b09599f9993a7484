-- ===== src/Worker/Host.antt =====
-- What the worker is told by its host, and what it makes of it: `_show`, `_cgroup_drained`,
-- `_unit_drained` and `_orphan_check` of console/worker.py.
use nexus_infra.Base.{
  ℕ, String, Bool, true, false, not, ◌&&◌, ◌||◌, List, [], ◌∷◌, Option, none, some, str_eq, ◌==◌,
  leb, if◌then◌else◌,
}
use nexus_infra.Base.Strings.{codes, length, take, drop}
use nexus_infra.Base.Table.{all, any}
use nexus_infra.Catalog.MountPoint.{same_codes}
use nexus_infra.Worker.State.{Db}

-- How a method ends that does not return: WorkerError(code), UncertainError(code), or one of
-- `_INTERNAL_ERRORS`.
pub data Fault : Type 0 where
  refused : String → Fault
  doubtful : String → Fault
  internal : Fault

pub data Outcome (A : Type 0) : Type 0 where
  fault : Fault → Outcome A
  done : A → Outcome A

infixl 5 ◌>>=◌ ◌>>◌
abbrev pub ◌>>=◌ : {A B : Type 0} → Outcome A → (A → Outcome B) → Outcome B
fault e >>= k = fault e
done a >>= k = k a

abbrev pub ◌>>◌ : {B : Type 0} → Outcome (Unit {0}) → Outcome B → Outcome B
m >> k = m >>= λ _. k

-- `if not test: raise e`
abbrev pub demand : Bool → Fault → Outcome (Unit {0})
demand false e = fault e
demand true e = done tt

abbrev pub or_fault : {A : Type 0} → Option A → Fault → Outcome A
or_fault none e = fault e
or_fault (some a) e = done a

abbrev pub uncertain_error : Fault
uncertain_error = doubtful "operation-uncertain"

-- A property of a unit, one line of `systemctl show`.
pub record Property : Type 0 where
  pub name : String
  pub value : String

-- The file `cgroup.events`: not there, not readable, or its last `populated` entry.
pub data Events : Type 0 where
  no_file unreadable : Events
  populated : Option String → Events

-- The checks and the work on files and stores that console/worker.py does elsewhere.
pub data Task : Type 0 where
  verify_mount verify_closure start_unit stop_unit : Task
  check_state_dirs render_runtime_files check_runtime_files : String → Task
  allocate_state_dirs provision_secrets claim_adopted validate_adopted : String → Task

-- The host at one moment. `show` is `none` where the command fails.
pub record View : Type 0 where
  pub show : String → Option (List Property)
  pub events : String → Events
  pub units : Option (List String)
  pub monotonic : ℕ
  pub memory_kib : Option ℕ
  pub cpus : ℕ
  pub free_bytes : ℕ
  pub attempt : Task → Outcome (Unit {0})
  pub exists_dir : String → Outcome Bool
  pub restore_pending : String → Outcome Bool

-- The answers of the host to the calls of a method, one view after the other.
abbrev pub Views : Type 0
Views = ℕ → View

abbrev pub later : ℕ → Views → Views
later n vs = λ k. vs (Prim.Native.Nat.◌+◌ n k)

pub record Show : Type 0 where
  pub load_state : String
  pub active_state : String
  pub main_pid : String
  pub control_group : String

-- The last line with the name decides.
abbrev property : String → List Property → Option String
property k [] = none
property k (p ∷ ps) = elim (property k ps) [
  | some v ↦ some v
  | none ↦ if str_eq p.name k then some p.value else none
]

abbrev is_digit : ℕ → Bool
is_digit c = leb b'0' c && leb c b'9'

-- `str.isdigit`, of the ASCII digits
abbrev is_number : String → Bool
is_number s = not (leb (length (codes s)) 0) && all is_digit (codes s)

abbrev option_bind : {A B : Type 0} → Option A → (A → Option B) → Option B
option_bind none k = none
option_bind (some a) k = k a

read_show : List Property → Option Show
read_show ps = option_bind (property "LoadState" ps) λ load.
    option_bind (property "ActiveState" ps) λ active. option_bind (property "SubState" ps) λ sub.
      option_bind (property "MainPID" ps) λ pid. option_bind (property "ControlGroup" ps) λ group.
        if is_number pid
        then some (record {
          load_state = load;
          active_state = active;
          main_pid = pid;
          control_group = group;
        })
        else none

-- `_show`
unfoldable pub show_unit : View → String → Option Show
unfolding read_show
show_unit v unit = option_bind (v.show unit) read_show

abbrev slash : ℕ
slash = b'/'

double_slash : List ℕ → Bool
double_slash [] = false
double_slash (c ∷ []) = false
double_slash (c ∷ d ∷ cs) = c == slash && d == slash || double_slash (d ∷ cs)

-- Whether a part between slashes is "..", the text before being at the start of a part or not.
dotted : Bool → List ℕ → Bool
dotted fresh [] = false
dotted fresh (c ∷ cs) = fresh && parent (c ∷ cs) || dotted (c == slash) cs
  where
    parent : List ℕ → Bool
    parent (a ∷ b ∷ []) = a == b'.' && b == b'.'
    parent (a ∷ b ∷ e ∷ es) = a == b'.' && b == b'.' && e == slash
    parent _ = false

absolute_group : List ℕ → Bool
unfolding double_slash dotted
absolute_group [] = false
absolute_group (c ∷ cs) = c == slash && not (double_slash (c ∷ cs)) && not (dotted true (c ∷ cs))

populated_drained : Events → Option Bool
populated_drained no_file = some true
populated_drained unreadable = none
populated_drained (populated none) = none
populated_drained (populated (some s)) =
    if str_eq s "0" then some true else if str_eq s "1" then some false else none

-- `_cgroup_drained`
unfoldable pub cgroup_drained : View → String → Option Bool
unfolding absolute_group populated_drained
cgroup_drained v group =
    if str_eq group ""
    then some true
    else if absolute_group (codes group)
    then populated_drained (v.events group)
    else none

abbrev pub is_quiet : Show → Bool
is_quiet s = str_eq s.active_state "inactive" || str_eq s.active_state "failed"

-- `_unit_drained`
unfoldable pub unit_drained : View → Option Show → Option Bool
unit_drained v none = none
unit_drained v (some s) =
    if not (is_quiet s)
    then some false
    else if not (str_eq s.main_pid "0")
    then (if str_eq s.load_state "not-found" then none else some false)
    else cgroup_drained v s.control_group

-- `is True`, `is False`
abbrev pub says : Bool → Option Bool → Bool
says b none = false
says true (some a) = a
says false (some a) = not a

-- `show is not None and show['ActiveState'] == s`
abbrev pub in_state : String → Option Show → Bool
in_state s none = false
in_state s (some w) = str_eq w.active_state s

abbrev pub unit_prefix : List ℕ
unit_prefix = codes "nexus-workload@"

abbrev pub unit_suffix : List ℕ
unit_suffix = codes ".service"

-- The machine of a unit, if it is a workload's.
unfoldable pub machine_of : List ℕ → Option (List ℕ)
machine_of cs =
    let n = length cs in
    let middle = drop (length unit_prefix) cs in
    let m = Prim.Native.Nat.◌-◌ (length middle) (length unit_suffix) in
    if same_codes (take (length unit_prefix) cs) unit_prefix
      && leb (Prim.Native.Nat.◌+◌ (length unit_prefix) (length unit_suffix)) n
      && same_codes (drop m middle) unit_suffix
    then some (take m middle)
    else none

abbrev is_base32 : ℕ → Bool
is_base32 c = leb b'a' c && leb c b'z' || leb b'2' c && leb c b'7'

-- `_MACHINE_RE`
is_machine : List ℕ → Bool
is_machine [] = false
is_machine (c ∷ cs) = c == b'n' && length cs == 10 && all is_base32 cs

abbrev tracked : Db → List ℕ → Bool
tracked db machine = any (λ i. same_codes (codes i.machine_name) machine) db.instances

stray_check : Db → View → String → Outcome (Unit {0})
unfolding is_machine
stray_check db v unit = elim (machine_of (codes unit)) [
  | none ↦ done tt
  | some machine ↦
      if tracked db machine
      then done tt
      else demand (is_machine machine && says true (unit_drained v (show_unit v unit)))
          (refused "unknown-runtime")
]

stray_checks : Db → Views → List String → Outcome (Unit {0})
unfolding stray_check
stray_checks db vs [] = done tt
stray_checks db vs (u ∷ us) =
    let rest = stray_checks db (later 1 vs) us in stray_check db (vs 0) u >> rest

-- `_orphan_check`; `units` has the first word of each line that is not empty.
unfoldable pub orphan_check : Db → Views → Outcome (Unit {0})
unfolding stray_checks
orphan_check db vs = elim ((vs 0).units) [
  | none ↦ fault (refused "runtime-observation-unavailable")
  | some units ↦ stray_checks db (later 1 vs) units
]
