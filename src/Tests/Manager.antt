-- ===== src/Tests/Manager.antt =====
-- Runs of the script that starts and stops servers, on a system that is its clock: every call but
-- `sleep` takes no time.
use glide_for_redis.Common.{ℕ, ◌+◌, ◌≤◌, ◌≡◌, ◌≢◌, refl, true, false, none, some, [], ◌∷◌, arith}
use glide_for_redis.Common.Text.{pos}
use glide_for_redis.Manager.Text.{contains, count, strip, isdigit, int_of, join}
use glide_for_redis.Manager.System.{
  when◌then◌else◌, on_option, poll, ◌>>=◌, ◌>>◌, ask, tell, try_except, pure, Os, gives, return,
  out_of_rounds,
}
use glide_for_redis.Manager.Ends.{SteadyClock, Ends}
use glide_for_redis.Manager.Waiting.{
  is_address_already_in_use, Paths, next_free_port, run, wait_for_server,
}
use glide_for_redis.Client.Slots.{occurrences}
use glide_for_redis.Manager.GivenPorts.{ports_of, PopsThere, create_servers_ports}
use glide_for_redis.Manager.Ports.{IsFree, next_free_port_lem}
use glide_for_redis.Manager.Servers.{
  tls_args_of, start_all, port_at, port_or_free, start_redis_server, check_all, Setup, SetPop,
  create_servers,
}
use glide_for_redis.Manager.Linking.{is_in, wait_for_a_message_in_redis_logs}
use glide_for_redis.Manager.Main.{Args, StartArgs, start, main}
use glide_for_redis.Manager.Counting.{PopsOne}
use glide_for_redis.Manager.Termination.{main_ends}
use glide_for_redis.Manager.Skipping.{looked_at, skips_every_log}

abbrev os : Os ℕ
os = record {
  time = λ w. (w, w);
  sleep = λ d w. (tt, w + d);
  randint = λ a b w. (a, w);
  choice = λ l w. ("a", w);
  time_str = λ w. ("today", w);
  path_exists = λ p w. (true, w);
  is_dir = λ p w. (true, w);
  abspath = λ p w. (p, w);
  days_since_modified = λ p w. (gives (pos 1), w);
  mkdir = λ p w. (gives tt, w);
  mkdir_exist_ok = λ p w. (gives tt, w);
  read_text = λ p w. (gives "Ready to accept connections", w);
  write_text = λ p t w. (gives tt, w);
  open_log = λ p w. (gives tt, w);
  rglob = λ p w. (gives ("folder/6379" ∷ []), w);
  scandir = λ p w. (gives [], w);
  listdir = λ p w. (gives [], w);
  popen = λ args i w. (gives 1, w);
  communicate = λ p t w. (gives ("PONG", ""), w);
  returncode = λ p w. (pos 0, w);
  bind = λ port w. (gives tt, w);
  close_socket = λ w. (tt, w);
  print = λ t w. (tt, w);
}

same : (w : ℕ) → w ≤ w
same w = omega arith

clock : SteadyClock os
clock = record {
  now = λ w. w;
  time-now = λ w. refl;
  time = same;
  sleep = λ d w. omega arith;
  randint = λ a b. same;
  choice = λ l. same;
  time_str = same;
  path_exists = λ p. same;
  is_dir = λ p. same;
  abspath = λ p. same;
  days_since_modified = λ p. same;
  mkdir = λ p. same;
  mkdir_exist_ok = λ p. same;
  read_text = λ p. same;
  write_text = λ p t. same;
  open_log = λ p. same;
  rglob = λ p. same;
  scandir = λ p. same;
  listdir = λ p. same;
  popen = λ args i. same;
  communicate = λ p t. same;
  returncode = λ p. same;
  bind = λ port. same;
  close_socket = same;
  print = λ t. same;
}

abbrev set_pop : SetPop ℕ
set_pop x xs w = ((x, xs), w)

pops : PopsOne clock set_pop
pops = record { length-rest = λ x xs w. refl; later = λ x xs w. omega arith }

abbrev paths : Paths
paths = record { tls_folder = "tls" }

abbrev setup : Setup
setup = record {
  paths = paths;
  host = "127.0.0.1";
  cluster_folder = "folder";
  tls = true;
  cluster_mode = true;
  load_module = none;
}

abbrev args : Args
args = record { host = "127.0.0.1"; tls = true; auth = none; log = "info"; logfile = none }

abbrev start_args : StartArgs
start_args = record {
  cluster_mode = true;
  folder_path = "clusters";
  ports = some (6379 ∷ 6380 ∷ []);
  shard_count = 1;
  replica_count = 1;
  prefix = "test";
  load_module = none;
}

main_ends_example :
    (main os set_pop paths ("a" ∷ []) (λ t. t) 2 args (start start_args) 0).0 ≢ out_of_rounds
main_ends_example =
    main_ends clock pops paths ("a" ∷ []) (λ t. t) 2 args (start start_args) 0
      ((6379 ∷ 6380 ∷ [], refl), ground arith)

skips_every_log_example :
    wait_for_a_message_in_redis_logs os "folder" "sync: Finished with success"
      (some ("6379" ∷ "6380" ∷ []))
      0
    ≡ (return tt, 0)
unfolding is_in looked_at
skips_every_log_example =
    skips_every_log os "folder" "sync: Finished with success" "6379" ("6380" ∷ [])
      ("folder/6379" ∷ []) 0 0 refl (refl, tt)

next_free_port_lem_example :
    Ends clock (λ port w. IsFree os 6379 6400 port) (next_free_port os 6379 6400 60000000) 0
next_free_port_lem_example =
    next_free_port_lem clock 6379 6400 (λ w. (ground arith, ground arith)) 60000000 0

-- The operations on text.
counts : count "a:6379 a:6380 b" "a:" ≡ 2
unfolding count
counts = refl

strips : strip " PONG\n" ≡ "PONG"
unfolding strip
strips = refl

is_inside : contains "OK" "[OK] All" ≡ true
unfolding contains
is_inside = refl

ports : (isdigit "6379" ≡ true) × (isdigit "a1" ≡ false) × (int_of "6379" ≡ 6379)
unfolding isdigit int_of
ports = (refl, refl, refl)

joined : join "," ("a" ∷ "b" ∷ []) ≡ "a,b"
unfolding join
joined = refl

-- The server answers the first time.
starts :
    (wait_for_server os paths (record { host = "h"; port = 1 }) false 1000000 0).0 ≡ return true
unfolding wait_for_server poll run ◌>>=◌ ask tell try_except pure strip when◌then◌else◌ on_option
starts = refl

pops_there : PopsThere clock set_pop
pops_there = record { one = pops; there = λ k x xs w. refl }

create_servers_ports_example :
    Ends clock
      (λ servers _. (k : ℕ) → occurrences k (ports_of servers) ≡ occurrences k (6379 ∷ 6380 ∷ []))
      (create_servers os set_pop setup 1 1 (some (6379 ∷ 6380 ∷ [])) 2)
      0
create_servers_ports_example =
    create_servers_ports clock pops_there setup 1 1 (6379 ∷ 6380 ∷ []) 2 0 refl (refl, (refl, tt))
      (ground arith)

-- On this system the servers come up.
servers_up :
    (create_servers os set_pop (record setup { tls = false }) 1 1 (some (6379 ∷ 6380 ∷ [])) 2 0).0
    ≡ return (
        record { host = "127.0.0.1"; port = 6380 }
        ∷ record { host = "127.0.0.1"; port = 6379 }
        ∷ [])
unfolding create_servers tls_args_of start_all port_at port_or_free start_redis_server check_all
    is_address_already_in_use wait_for_server poll run ◌>>=◌ ◌>>◌ ask tell try_except pure strip
    contains when◌then◌else◌ on_option
servers_up = refl
