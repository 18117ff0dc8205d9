-- ===== src/Jobs/Nodes.antt =====
-- The nodes of the grid (`NodesMixin`, legacy/services_python/db/_nodes.py).
use distrib_ai.Base.{ℕ, ◌==◌, Bool, true, Option, none, some, [], ◌∷◌, ◌++◌, if◌then◌else◌, is_some}
use distrib_ai.Jobs.Tables.{NodeRow, Db, idle, working, node_is, find_where, update_node, coalesce}

-- What a worker says of itself; 0 stands for no benchmark and no token.
pub record Registration : Type 0 where
  pub node_id : ℕ
  pub session_token : ℕ
  pub jwt_token : ℕ
  pub hardware_json : ℕ
  pub benchmark_json : ℕ

abbrev pub new_node : Registration → ℕ → NodeRow
new_node r ts = record {
  node_id = r.node_id;
  session_token = r.session_token;
  jwt_token = r.jwt_token;
  hardware_json = r.hardware_json;
  benchmark_json = r.benchmark_json;
  status = idle;
  contributing = true;
  current_task_id = none;
  last_heartbeat_ts = some ts;
  heartbeat_seq = 0;
  gpu_util = none;
  vram_free_mb = none;
  jobs_completed = 0;
  jobs_failed = 0;
  reliability_score = 100;
  created_ts = ts;
  updated_ts = ts;
}

-- `ON CONFLICT(node_id) DO UPDATE SET`
abbrev pub register_again : Registration → ℕ → NodeRow → NodeRow
register_again r ts n = record n {
  session_token = r.session_token;
  jwt_token = if r.jwt_token == 0 then n.jwt_token else r.jwt_token;
  hardware_json = r.hardware_json;
  benchmark_json = r.benchmark_json;
  status = idle;
  last_heartbeat_ts = some ts;
  updated_ts = ts;
}

abbrev pub knows_node : ℕ → Db → Bool
knows_node id db = is_some (find_where (node_is id) db.nodes)

unfoldable pub register_node : Registration → ℕ → Db → Db
register_node r ts db =
    if knows_node r.node_id db
    then update_node r.node_id (register_again r ts) db
    else record db { nodes = db.nodes ++ new_node r ts ∷ [] }

pub record Heartbeat : Type 0 where
  pub seq : Option ℕ
  pub gpu_util : Option ℕ
  pub vram_free_mb : Option ℕ
  pub current_task : Option ℕ

abbrev pub or_older : Option ℕ → Option ℕ → Option ℕ
or_older none old = old
or_older (some new) old = some new

-- `"working" if task_id else "idle"`
abbrev pub beat_status : Option ℕ → ℕ
beat_status none = idle
beat_status (some task) = if task == 0 then idle else working

-- The call with numbers; the one with a status as its first argument sets that.
unfoldable pub update_heartbeat : ℕ → Heartbeat → ℕ → Db → Db
update_heartbeat node h ts db =
    update_node node
      (λ n. record n {
        last_heartbeat_ts = some ts;
        status = beat_status h.current_task;
        current_task_id = h.current_task;
        heartbeat_seq = coalesce h.seq n.heartbeat_seq;
        gpu_util = or_older h.gpu_util n.gpu_util;
        vram_free_mb = or_older h.vram_free_mb n.vram_free_mb;
        updated_ts = ts;
      })
      db

unfoldable pub set_node_contributing : ℕ → Bool → ℕ → Db → Bool × Db
set_node_contributing node contributing now db = (
  knows_node node db,
  update_node node (λ n. record n { contributing = contributing; updated_ts = now }) db,
)

unfoldable pub update_node_hardware : ℕ → ℕ → Option ℕ → ℕ → Db → Bool × Db
update_node_hardware node hardware benchmark now db = (
  knows_node node db,
  update_node node
      (λ n. record n {
        hardware_json = hardware;
        benchmark_json = coalesce benchmark n.benchmark_json;
        updated_ts = now;
      })
      db,
)

unfoldable pub update_node_benchmark : ℕ → ℕ → ℕ → Db → Bool × Db
update_node_benchmark node benchmark now db = (
  knows_node node db,
  update_node node (λ n. record n { benchmark_json = benchmark; updated_ts = now }) db,
)

unfoldable pub get_node_jwt : ℕ → Db → Option ℕ
get_node_jwt node db = elim (find_where (node_is node) db.nodes) [
  | none ↦ none
  | some n ↦ if n.jwt_token == 0 then none else some n.jwt_token
]
