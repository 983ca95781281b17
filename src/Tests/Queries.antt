-- ===== src/Tests/Queries.antt =====
-- The query client at concrete inputs (nmoscommon/query.py).
use nmos_common.Common.{none, some, [], ◌∷◌, List, length, ltb, if◌then◌else◌}
use nmos_common.Query.{World, QueryService, Node, Service, Reply, get_query}
use nmos_common.Query.Fetches.{Fetches, get_query-Fetches}

abbrev status_service : Service
status_service = record { type = some "urn:status"; attrs = [] }

abbrev nodes : List Node
nodes =
    record { id = "n1"; services = none }
    ∷ record {
      id = "n2";
      services = some (record { type = none; attrs = [] } ∷ status_service ∷ []);
    }
    ∷ []

-- only the second address answers
abbrev world : World Unit
world = record {
  net = λ sent. if ltb (length sent) 2 then Reply.failed else Reply.reply 200 nodes;
  get_href = λ host. ("http://10.0.0.5", host);
  apiversion = "v1.2";
}

abbrev service : QueryService Unit
service = record { query_url = "http://10.0.0.4"; host = tt; sent = [] }

get_query-Fetches_example : Fetches world 2 service (get_query world "/nodes/" service)
get_query-Fetches_example = get_query-Fetches world "/nodes/" service
