-- ===== src/Director.antt =====
-- The directors of varnishd: bin/varnishd/cache_dir_round_robin.c and cache_dir_random.c.
pub mod RoundRobin
pub mod Random
