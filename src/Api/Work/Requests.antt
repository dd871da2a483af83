-- ===== src/Api/Work/Requests.antt =====
-- What a request of owtf/api/handlers/work.py to pause all workers does to them.

use owtf.Db.Table.{Table}
use owtf.Db.Models.{Work}
