-- ===== src/Cache/Tests.antt =====
-- The cache over a Redis that holds two pages, and over one that is down.
use drogon_api_starter.Prelude.{◌≡◌, refl, true, none, [], ◌∷◌}
use drogon_api_starter.Text.{strip_prefix}
use drogon_api_starter.Result.{ok}
use drogon_api_starter.Cache.{get, set, erase, erase_prefix}
use drogon_api_starter.Cache.Laws.{Returns, cache-Returns}
use drogon_api_starter.Cache.Store.{get-erase_prefix}
use drogon_api_starter.Samples.SampleRedis.{Entries, redis, down, down-ThrowsStd, store}

abbrev pages : Entries
pages = ("users:page=1:size=25", "[1]") ∷ ("roles:page=1:size=25", "[2]") ∷ []

cache-Returns_example :
    Returns (get down true "users:page=1:size=25" pages)
    × Returns (set down true "users:page=1:size=25" "[3]" 30 pages)
    × Returns (erase down true "users:page=1:size=25" pages)
    × Returns (erase_prefix down true "users:" pages)
cache-Returns_example =
    cache-Returns down true down-ThrowsStd "users:page=1:size=25" "[3]" "users:" 30 pages

get-erase_prefix_example :
    (r : Entries) × (erase_prefix redis true "users:" pages ≡ (ok tt, r))
    × (get redis true "users:page=1:size=25" r ≡ (ok none, r))
unfolding strip_prefix
get-erase_prefix_example = get-erase_prefix redis store "users:" "users:page=1:size=25" pages refl
