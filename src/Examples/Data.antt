-- ===== src/Examples/Data.antt =====
-- Rows and processes that the examples share.

use owtf.Base.{ℕ, ◌+◌, String, Bool, true, false, Option, none, some, [], ◌∷◌}
use owtf.Base.Int.{ℤ, pos, negsuc}
use owtf.Db.Memory.{Stored}
use owtf.Db.Models.{Work, Plugin, PluginOutput, Target}
use owtf.Process.{Host}
use owtf.Worker.Pool.{Process}

abbrev pub target_at : ℕ → Target
target_at n = record {
  id = n;
  target_url = "http://a";
  host_name = "a";
  host_path = "a";
  url_scheme = "http";
  port_number = "80";
  host_ip = "1.2.3.4";
  alternative_ips = "['1.2.3.4']";
  ip_url = "http://1.2.3.4";
  top_domain = "";
  top_url = "http://a:80";
  scope = true;
}

abbrev pub plugin_of_type : String → Plugin
plugin_of_type t = record {
  key = t;
  title = "Probe";
  name = "Probe";
  code = "OWTF-X";
  group = "web";
  type = t;
  file = "probe.py";
}

abbrev pub work_of : ℕ → ℕ → String → Bool → Work
work_of i t k a = record { id = i; target_id = t; plugin_key = k; active = a }

abbrev pub target_of_work : Work → Target
target_of_work w = target_at w.target_id

abbrev pub plugin_of_work : Work → Plugin
plugin_of_work w = plugin_of_type w.plugin_key

-- Three jobs; the first is paused.
abbrev pub three_jobs : Stored Work
three_jobs = record {
  contents =
      work_of 1 7 "active" false ∷ work_of 2 7 "passive" true ∷ work_of 3 8 "active" true ∷ [];
  counter = 4;
}

abbrev pub output_row : ℕ → Option ℕ → String → PluginOutput
output_row i t k = record {
  id = i;
  target_id = t;
  plugin_key = k;
  plugin_code = "OWTF-X";
  plugin_group = "web";
  plugin_type = k;
  output = "[]";
  error = none;
  start_time = 1;
  end_time = 2;
  status = "Successful";
  user_rank = negsuc 0;
  owtf_rank = pos 3;
  output_path = some "out";
}

abbrev pub two_outputs : Stored PluginOutput
two_outputs = record {
  contents = output_row 1 (some 7) "active" ∷ output_row 2 (some 8) "passive" ∷ [];
  counter = 3;
}

-- No text is a number.
abbrev pub no_int : String → Option ℤ
no_int s = none

abbrev pub same_path : String → String
same_path p = p

abbrev pub process_at : ℕ → Process
process_at n = record { pid = n; name = "Worker" }

abbrev pub host : Host
host = record { children = λ p. some ((p + 100) ∷ []); is_gone = λ p. false; alive = λ ps. ps }
