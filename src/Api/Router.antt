-- ===== src/Api/Router.antt =====
-- internal/api/routes.go: the table of NewRouter. The matching of patterns is net/http's; a request is
-- one that its pattern has matched, with the name that the path gives. The web page is not modelled.
use queuemaxxing.Base.{String, Option, some, Bool, true, false}
use queuemaxxing.Queue.Engine.State.{CallEnv}
use queuemaxxing.Queue.Manager.{Manager, CreateEnv, DeleteEnv}
use queuemaxxing.Queue.Manager.Listing.{SortSlice}
use queuemaxxing.Api.Handlers.{
  Reply, answer, status_ok, Decoded, CreateRequest, Handled, handle_create, handle_list, handle_get,
  handle_delete, handle_stats,
}
use queuemaxxing.Api.Messages.{
  SendRequest, ReceiveRequest, NackRequest, Context, handle_send, handle_receive, handle_ack,
  handle_nack,
}

pub data Request : Type 0 where
  post_queues : Decoded CreateRequest → Request
  get_queues get_health : Request
  get_queue remove_queue get_stats : String → Request
  post_messages : String → Decoded SendRequest → Request
  post_receive : String → Context → Decoded ReceiveRequest → Request
  post_ack : String → Decoded String → Request
  post_nack : String → Decoded NackRequest → Request

-- what the calls of one request take from outside, and sort.Slice
pub record ServerEnv : Type 0 where
  pub create : CreateEnv
  pub delete : DeleteEnv
  pub call : CallEnv
  pub sort_slice : SortSlice

abbrev pub answered : Handled → Option Reply × Manager
answered (reply, m) = (some reply, m)

-- the handler of each pattern
unfoldable pub serve : ServerEnv → Request → Manager → Option Reply × Manager
serve env (post_queues body) m = answered (handle_create env.create body m)
serve env get_queues m = answered (handle_list env.sort_slice m)
serve env get_health m = (some (answer 200 status_ok), m)
serve env (get_queue name) m = answered (handle_get name m)
serve env (remove_queue name) m = answered (handle_delete env.delete name m)
serve env (get_stats name) m = answered (handle_stats name m)
serve env (post_messages name body) m = handle_send env.call name body m
serve env (post_receive name ctx body) m = handle_receive env.call ctx name body m
serve env (post_ack name body) m = handle_ack env.call name body m
serve env (post_nack name body) m = handle_nack env.call name body m

abbrev pub is_delete : Request → Bool
is_delete (remove_queue _) = true
is_delete _ = false
