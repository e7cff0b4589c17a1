-- ===== src/Provider/Sample.antt =====
-- Packages around internal/provider that answer every request well: data for tests.
use jimu_studio.Base.{String, true, false, Option, none, some, List, [], ◌∷◌}
use jimu_studio.Base.Int.{pos}
use jimu_studio.Provider.Types.{
  Field, Entity, User, Role, WorkflowRun, QuotaPlan, DeletionPlan, DeletionReceipt, MigrationPlan,
  Page,
}
use jimu_studio.Provider.Client.{BaseUrl, Client, Decoded, Http}

abbrev pub id_field : Field
id_field = record { code = "id"; data_type = "uuid"; required = true; read_only = true }

abbrev pub orders : Entity
orders = record {
  code = "orders";
  name = "Orders";
  kind = "standard";
  version = pos 1;
  fields = id_field ∷ [];
}

abbrev pub receipt : DeletionReceipt
receipt = record { code = "orders"; deleted_version = pos 1; deleted_at = "2026-07-19T00:00:00Z" }

abbrev plan : DeletionPlan
plan = record {
  code = "orders";
  expected_version = pos 1;
  deletable = true;
  dependencies = [];
  impact_summary = "1 row";
}

abbrev migration : MigrationPlan
migration = record {
  entity_code = "orders";
  plan_code = "p1";
  risk = "low";
  summary = "add a column";
  requires_confirmation = true;
}

abbrev user : User
user = record {
  id = "u1";
  display_name = "User";
  email = "user@example.com";
  status = "active";
  roles = [];
  version = pos 1;
}

abbrev role : Role
role = record { key = "reader"; display_name = "Reader"; system = false; version = pos 1 }

abbrev workflow : WorkflowRun
workflow = record {
  id = "run-001";
  workflow = "order";
  state = "running";
  version = pos 1;
  created_at = "2026-07-19T00:00:00Z";
  updated_at = "2026-07-19T00:00:00Z";
  lease_state = "active";
  lease_expires_at = "";
  next_wake_at = "";
}

abbrev quota_plan : QuotaPlan
quota_plan = record {
  code = "default";
  version = pos 1;
  effective_at = "2026-07-19T00:00:00Z";
  window_seconds = pos 60;
  limits = "{}";
}

abbrev pub always {ℓ} : {A : Type ℓ} → A → String → Option (Decoded A)
always value body = some (record { value = value; taken = 2; at_end = true })

abbrev pub page_of {ℓ} : {A : Type ℓ} → List A → Page A
page_of items = record { items = items; next_cursor = "" }

abbrev pub base : BaseUrl
base = record {
  scheme = "https";
  host = "provider.example";
  has_user = false;
  raw_query = "";
  fragment = "";
}

abbrev pub http : Http
http = record {
  exchange =
      λ request. some (record { status = 200; content_type = "application/json"; body = "{}" });
  redirect = λ request response. none;
  parse_base = λ url. some base;
  parse_reference = λ path. some (record { is_abs = false; host = "" });
  media_type = λ value. some value;
  path_escape = λ value. value;
  encode_query = λ values. "q";
  itoa = λ n. "50";
  parses_time = λ value. true;
  count_keys = λ limits. 1;
  map_runes = λ value. value;
  marshal = λ payload. some "{}";
  api_error = λ body e. (e, none);
  entity_page = always (page_of (orders ∷ []));
  entity = always orders;
  deletion_plan = always plan;
  deletion_receipt = always receipt;
  migration_plans = always (migration ∷ []);
  user_page = always (page_of (user ∷ []));
  user = always user;
  role_page = always (page_of (role ∷ []));
  role = always role;
  run_page = always (page_of (workflow ∷ []));
  run = always workflow;
  task_page = always (page_of []);
  plan_page = always (page_of (quota_plan ∷ []));
  plan = always quota_plan;
  usage_page = always (page_of []);
  discrepancy_page = always (page_of []);
  audit_page = always (page_of []);
}

abbrev pub client : Client
client = record { base_url = base; token = "at"; refuses_redirects = true; cancelled = false }
