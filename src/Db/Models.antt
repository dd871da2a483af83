-- ===== src/Db/Models.antt =====
-- The rows of owtf/models: work.py, plugin.py, plugin_output.py, target.py, session.py.
use owtf.Base.{ℕ, String, Bool, Option}
use owtf.Base.Int.{ℤ}

-- class Work
pub record Work : Type 0 where
  pub id : ℕ
  pub target_id : ℕ
  pub plugin_key : String
  pub active : Bool

-- class Plugin; also the dictionary that `to_dict` makes of it
pub record Plugin : Type 0 where
  pub key : String
  pub title : String
  pub name : String
  pub code : String
  pub group : String
  pub type : String
  pub file : String

-- class PluginOutput; `none` is a NULL target
pub record PluginOutput : Type 0 where
  pub id : ℕ
  pub target_id : Option ℕ
  pub plugin_key : String
  pub plugin_code : String
  pub plugin_group : String
  pub plugin_type : String
  pub output : String
  pub error : Option String
  pub start_time : ℕ
  pub end_time : ℕ
  pub status : String
  pub user_rank : ℤ
  pub owtf_rank : ℤ
  pub output_path : Option String

-- class Target, and the dictionary of `get_target_config_dict`
pub record Target : Type 0 where
  pub id : ℕ
  pub target_url : String
  pub host_name : String
  pub host_path : String
  pub url_scheme : String
  pub port_number : String
  pub host_ip : String
  pub alternative_ips : String
  pub ip_url : String
  pub top_domain : String
  pub top_url : String
  pub scope : Bool

-- class Session
pub record Session : Type 0 where
  pub id : ℕ
  pub name : String
  pub active : Bool
