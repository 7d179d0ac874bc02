-- ===== src/Tests/Services.antt =====
-- The configuration, queries, the control of a capture and the static files, on concrete inputs.
use nanocap.Prelude.{
  String, ◌++◌, arith, ℕ, ◌≡◌, refl, Bool, true, false, Option, none, some, List, [], ◌∷◌, Outcome,
  ok, throw, runtime_error,
}
use nanocap.Stream.{Bytes}
use nanocap.Util.Text.{codes}
use nanocap.Protocol.Enums.{confirm_ack}
use nanocap.Protocol.Messages.{MsgConfirmAck}
use nanocap.Db.Messages.{put_confirm_ack}
use nanocap.Db.Rows.Leaves.{vote_rows}
use nanocap.Db.Rows.Votes.{put_confirm_ack-stale}
use nanocap.Db.{Db, Value, integer, null, bind, exec, reset_statement, vote}
use nanocap.Db.Query.{
  Statements, query, destroy_capture_data, count_packets_per_type, same_bytes, delete_from,
  insert_run, flush_transaction,
}
use nanocap.Db.Query.Rows.{
  no_rows, a_row, an_error, a_good_row, with_rows, with_error, query-rows, query-Breaks,
}
use nanocap.Db.Query.Destroy.{no_counts, destroy_capture_data-stops}
use nanocap.Handler.Tcp.{PacketHandler, count_packet}
use nanocap.Config.{default_config, load_config, save_config}
use nanocap.Config.Instance.{tree_library}
use nanocap.Config.RoundTrip.{load_config-save_config}
use nanocap.Control.{
  Devices, Server, destroy_request, empty_object, handle_request, start_device, stop_device,
  close_device, open_device,
}
use nanocap.Control.Paired.{IsPaired, handle_request-IsPaired}
use nanocap.Web.{Files, resolve, serve_static, send_file, read_and_send}
use nanocap.Web.Within.{serve_static-unchecked}
use nanocap.Web.Chunks.{join, read_and_send-joins}
use nanocap.Tests.Data.{header_of, packet_of, test_env, empty_db, fill}

load_config-save_config_example :
    load_config tree_library (save_config tree_library default_config) ≡ ok default_config
unfolding default_config
load_config-save_config_example =
    load_config-save_config tree_library default_config _ (omega arith) (omega arith) (omega arith)
      refl

-- A statement over a list of rows that ends, or ends in an error.
abbrev list_step :
    Bool × List (List Bytes) → Outcome (Option (List Bytes × (Bool × List (List Bytes))))
list_step (broken, (row ∷ rows)) = ok (some (row, (broken, rows)))
list_step (true, []) = throw runtime_error
list_step (false, []) = ok none

abbrev list_statements : Statements
list_statements = record {
  Cursor = Bool × List (List Bytes);
  prepare = λ text. ok (same_bytes text (codes "broken"), ((1 ∷ []) ∷ []) ∷ ((2 ∷ []) ∷ []) ∷ []);
  execute_step = list_step;
  column_names = λ c. (codes "id") ∷ [];
}

abbrev two_rows : List (List Bytes)
two_rows = ((1 ∷ []) ∷ []) ∷ ((2 ∷ []) ∷ []) ∷ []

-- With a maximum of one row.
query-rows_example :
    query list_statements 1 (codes "all")
    ≡ ok (with_rows (some (codes "id" ∷ [])) (((1 ∷ []) ∷ []) ∷ []))
query-rows_example =
    query-rows list_statements 1 (codes "all") (false, two_rows) (codes "id" ∷ []) two_rows refl
      (a_row (false, two_rows) _ _ _ refl refl (a_row _ _ _ _ refl refl (no_rows (false, []) refl)))

query-Breaks_example :
    query list_statements 5 (codes "broken") ≡ ok (with_error (some (codes "id" ∷ [])))
query-Breaks_example =
    query-Breaks list_statements 5 (codes "broken") (true, two_rows) (codes "id" ∷ []) two_rows refl
      (a_good_row (true, two_rows) _ _ _ refl refl
        (a_good_row _ _ _ _ refl refl (an_error (true, []) refl)))
      (omega arith)

abbrev full_db : Db
full_db = record empty_db { max_reached = true }

abbrev capturing : PacketHandler
capturing = record {
  consumed = 9999;
  packet_parse_error_count = 0;
  has_device = true;
  capture_stopped = false;
  hung = false;
}

destroy_capture_data-stops_example :
    let db' = (destroy_capture_data (codes "packet" ∷ []) full_db).1 in
    (count_packets_per_type db' ≡ no_counts 0 32)
    × ((count_packet db' capturing).capture_stopped ≡ true)
destroy_capture_data-stops_example =
    destroy_capture_data-stops (codes "packet" ∷ []) full_db capturing refl refl refl

abbrev one_device : Devices
one_device = record {
  Device = ℕ;
  device_by_ip = λ ip. some 7;
  device_list = 7 ∷ [];
  ipv4_text = λ d. codes "10.0.0.1";
  opens = λ d. true;
  takes_filter = λ d f. true;
}

abbrev live_server : Server one_device
live_server = record {
  control = record {
    device_ip = [];
    filter = [];
    capturing = true;
    importing = false;
    dev = some 7;
    calls = start_device 7 ∷ [];
  };
  db = full_db;
  removals = [];
}

abbrev restarted_server : Server one_device
restarted_server = record {
  control = record {
    device_ip = [];
    filter = [];
    capturing = true;
    importing = false;
    dev = some 7;
    calls = start_device 7 ∷ stop_device 7 ∷ close_device 7 ∷ open_device 7 ∷ start_device 7 ∷ [];
  };
  db = record full_db { count_per_type = λ n. 0 };
  removals = delete_from (codes "packet") ∷ flush_transaction ∷ insert_run ∷ flush_transaction ∷ [];
}

-- The removal of the data while a capture is live.
handle_request-IsPaired_example : IsPaired one_device restarted_server.control
unfolding handle_request
handle_request-IsPaired_example =
    handle_request-IsPaired one_device (codes "packet" ∷ []) destroy_request live_server
      restarted_server empty_object (record { flag = refl; pairs = refl }) (λ h. cc) refl

-- A server whose root is one part, with a file beside it.
abbrev two_files : Files
two_files = record {
  parts = λ request_path. codes ".." ∷ request_path ∷ [];
  exists = λ path. true;
  is_directory = λ path. false;
  extension = λ path. codes ".html";
  file = λ path. some (fill 3 7);
}

serve_static-unchecked_example :
    serve_static two_files (codes "public" ∷ []) (λ n. true) (codes "nanocap.config")
    ≡ send_file two_files
        (λ n. true)
        (codes "public" ∷ codes ".." ∷ codes "nanocap.config" ∷ [])
        (some (fill 3 7))
unfolding resolve
serve_static-unchecked_example =
    serve_static-unchecked two_files (codes "public" ∷ []) (λ n. true) (codes "nanocap.config")

read_and_send-joins_example : join (read_and_send 4 (λ n. true) (fill 3 7)) ≡ fill 3 7
read_and_send-joins_example = read_and_send-joins 4 (λ n. true) (fill 3 7) (omega arith) (λ n. refl)

-- A block vote came before: its content id is bound still.
abbrev after_block_vote : Db
after_block_vote = record empty_db {
  calls = bind vote ":content_id" (integer 77) ∷ exec vote ∷ reset_statement vote ∷ [];
}

abbrev hash_vote : MsgConfirmAck
hash_vote = record {
  common = record { account = fill 32 1; signature = fill 64 2; sequence = 3 };
  votebyhash = some (record { hashes = some (fill 32 4 ∷ []) });
  block = none;
}

put_confirm_ack-stale_example :
    (row : String → Value) × ((vote_rows (
          put_confirm_ack test_env
            (header_of confirm_ack 0)
            hash_vote
            (packet_of [])
            after_block_vote)
        ≡ vote_rows after_block_vote ++ row ∷ [])
      × ((row ":content_id" ≡ integer 77) × (row ":content_table" ≡ null)))
put_confirm_ack-stale_example =
    put_confirm_ack-stale test_env (header_of confirm_ack 0) hash_vote (packet_of [])
      after_block_vote refl
