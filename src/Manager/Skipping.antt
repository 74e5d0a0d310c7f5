-- ===== src/Manager/Skipping.antt =====
-- What `wait_for_a_message_in_redis_logs` of utils/cluster_manager.py skips.
use glide_for_redis.Common.{◌≡◌, refl, Bool, true, false, some, String, List, [], ◌∷◌, All, ◌∙◌}
use glide_for_redis.Manager.System.{
  Os, return, Action, ask, tell, gives, ◌>>=◌, when◌then◌else◌, pure,
}
use glide_for_redis.Manager.Linking.{is_in, wait_in, wait_for_a_message_in_redis_logs}

module _ {W : Type 0} (os : Os W) where
  -- Each path is asked whether it is a folder, and that is all.
  unfoldable pub looked_at : List String → W → W
  looked_at [] w = w
  looked_at (dir ∷ dirs) w = looked_at dirs (os.is_dir dir w).1

  wait_in-skips :
      (message p : String) (ps dirs : List String) (w : W)
      → All (λ dir. is_in dir (p ∷ ps) ≡ false) dirs
      → wait_in os message (some (p ∷ ps)) dirs w ≡ (return tt, looked_at dirs w)
  unfolding wait_in looked_at ◌>>=◌ tell pure when◌then◌else◌
  wait_in-skips message p ps [] w h = refl
  wait_in-skips message p ps (dir ∷ dirs) w h = rw h.0 (
      either (os.is_dir dir w).0 (wait_in os message (some (p ∷ ps)) dirs) (os.is_dir dir w).1
      ∙ wait_in-skips message p ps dirs (os.is_dir dir w).1 h.1)
    where
      either : (b : Bool) (m : Action W (Unit {0})) (v : W) → (when b then m else m) v ≡ m v
      either true m v = refl
      either false m v = refl

  -- With texts of ports, `wait_for_a_message_in_redis_logs` returns though no log was read, if none
  -- of the paths below the folder is one of those texts: it only asks which of them are folders.
  pub skips_every_log :
      (cluster_folder message p : String) (ps dirs : List String) (w after : W)
      → os.rglob cluster_folder w ≡ (gives dirs, after)
      → All (λ dir. is_in dir (p ∷ ps) ≡ false) dirs
      → wait_for_a_message_in_redis_logs os cluster_folder message (some (p ∷ ps)) w
        ≡ (return tt, looked_at dirs after)
  unfolding wait_for_a_message_in_redis_logs ask ◌>>=◌
  skips_every_log cluster_folder message p ps dirs w after found others =
      rw found (wait_in-skips message p ps dirs after others)
