-- ===== src/GameMap/Cache.antt =====
-- What the cache of business/GameLogic/GameMapIO.cpp keeps.
use own_game_server.Prelude.{
  ◌≡◌, ◌∙◌, refl, ap, Option, none, some, List, [], ◌∷◌, String, arith, eq_iff,
}
use own_game_server.Assoc.{lookup, emplace, lookup-emplace, string_eq}
use own_game_server.RuntimeData.{MapData}
use own_game_server.JsonTranslator.{JsonLibrary}
use own_game_server.GameMap.{MapCache, keep, load_missing, load_map_data}

emplace_kept :
    (name other : String) (fresh old : MapData) (cache : MapCache)
    → lookup other cache ≡ some old
    → lookup other (emplace name fresh cache) ≡ some old
emplace_kept name other fresh old cache there =
    ground (arith, lookup-emplace name other fresh cache, eq_iff name other, there)

module _ {J : Type 0} (lib : JsonLibrary J) where
  keep_kept :
      (name other : String) (fresh : Option MapData) (old : MapData) (cache : MapCache)
      → lookup other cache ≡ some old
      → lookup other (keep lib name fresh cache).0 ≡ some old
  unfolding keep
  keep_kept name other none old cache there = there
  keep_kept name other (some fresh) old cache there = emplace_kept name other fresh old cache there

  load_missing_kept :
      (files : String → Option J) (name other : String) (found : Option MapData) (old : MapData)
      (cache : MapCache)
      → lookup other cache ≡ some old
      → lookup other (load_missing lib files name found cache).0 ≡ some old
  unfolding load_missing
  load_missing_kept files name other none old cache there = keep_kept name other _ old cache there
  load_missing_kept files name other (some d) old cache there = there

  -- Loads one after the other, each with the files as they are then.
  unfoldable pub load_all : List ((String → Option J) × String) → MapCache → MapCache
  load_all [] cache = cache
  load_all ((files, name) ∷ loads) cache = load_all loads (load_map_data lib files name cache).0

  load_all_kept :
      (loads : List ((String → Option J) × String)) (name : String) (old : MapData)
      (cache : MapCache)
      → lookup name cache ≡ some old
      → lookup name (load_all loads cache) ≡ some old
  unfolding load_all load_map_data
  load_all_kept [] name old cache there = there
  load_all_kept ((files, other) ∷ loads) name old cache there =
      load_all_kept loads name old (load_map_data lib files other cache).0
        (load_missing_kept files other name (lookup other cache) old cache there)

  keep_found :
      (name : String) (fresh : Option MapData) (cache : MapCache) (d : MapData)
      → (keep lib name fresh cache).1 ≡ some d
      → lookup name (keep lib name fresh cache).0 ≡ some d
  unfolding keep
  keep_found name none cache d e = cc
  keep_found name (some fresh) cache d e = e

  load_missing_found :
      (files : String → Option J) (name : String) (found : Option MapData) (cache : MapCache)
      (d : MapData)
      → lookup name cache ≡ found
      → (load_missing lib files name found cache).1 ≡ some d
      → lookup name (load_missing lib files name found cache).0 ≡ some d
  unfolding load_missing
  load_missing_found files name none cache d there e = keep_found name _ cache d e
  load_missing_found files name (some old) cache d there e = there ∙ e

  -- A map that has been loaded once stays as it was: after any other loads, and whatever the files
  -- hold by then, LoadMapData gives the same map under its name.
  pub load_map_data-load_all :
      (files later : String → Option J) (loads : List ((String → Option J) × String))
      (name : String) (cache : MapCache) (d : MapData)
      → (load_map_data lib files name cache).1 ≡ some d
      → (load_map_data lib later name (load_all loads (load_map_data lib files name cache).0)).1
        ≡ some d
  unfolding load_map_data
  load_map_data-load_all files later loads name cache d e =
      ap
        (λ (found : Option MapData).
          (load_missing lib later name found
            (load_all loads (load_map_data lib files name cache).0)).1)
        (load_all_kept loads name d (load_map_data lib files name cache).0
          (load_missing_found files name (lookup name cache) cache d refl e))
      ∙ (unfold load_missing in refl)
