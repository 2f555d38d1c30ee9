-- ===== src/Main/Exits.antt =====
-- What `main` of src/main.rs prints, and how it exits.
use mathlib.Core.List.{append-nil}
use vmdk_rs.Base.{◌≡◌, refl, ap, sym, ◌∙◌, List, [], ◌∷◌, ◌++◌, some, map}
use vmdk_rs.Base.Outcome.{Outcome, ok, err}
use vmdk_rs.Crates.{ByteOrder, Deflate}
use vmdk_rs.Text.{Text}
use vmdk_rs.Io.{Bytes, Cache}
use vmdk_rs.Errors.{OpenError}
use vmdk_rs.Reader.{VmdkReader}
use vmdk_rs.Hash.{Hasher, VmdkError, do_hash, run}
use vmdk_rs.Main.{success, failure, line, exit_of, main}

module _ (order : ByteOrder) (deflate : Deflate) (hasher : Hasher)
    (open_path : Text → Outcome OpenError (VmdkReader × Cache)) (hex : Bytes → Text)
    (message : VmdkError → Text) where
  -- Each path with its digest.
  abbrev pub Hashed : List (Text × Bytes) → Type 0
  Hashed [] = Unit
  Hashed ((p, digest) ∷ done) = (do_hash order deflate hasher open_path p ≡ ok digest) × Hashed done

  abbrev pub paths : List (Text × Bytes) → List Text
  paths [] = []
  paths ((p, digest) ∷ done) = p ∷ paths done

  abbrev Run : Type 0
  Run = List (Text × Bytes) × Outcome VmdkError (Unit {0})

  -- What a run prints in front of the rest.
  abbrev behind : List (Text × Bytes) → Run → Run
  behind done r = (done ++ r.0, r.1)

  run_done :
      (done : List (Text × Bytes)) (later : List Text)
      → Hashed done
      → run order deflate hasher open_path (paths done ++ later)
        ≡ behind done (run order deflate hasher open_path later)
  unfolding run
  run_done [] later h = refl
  run_done ((p, digest) ∷ done) later h =
      rw (h.0, run) (ap (behind ((p, digest) ∷ [])) (run_done done later h.1))

  run_failed :
      (p : Text) (later : List Text) (e : VmdkError)
      → do_hash order deflate hasher open_path p ≡ err e
      → run order deflate hasher open_path (p ∷ later) ≡ ([], err e)
  unfolding run
  run_failed p later e h = rw (h, run) refl

  -- For paths that can all be hashed and one that ends with an error: for the former alone, `main` prints a
  -- line for each of them, in order, and exits with success. Where the latter comes behind them, it prints
  -- the same lines and the message of the error, exits with failure, and the paths behind that one change
  -- nothing.
  pub main_lem :
      (done : List (Text × Bytes)) (p : Text) (later : List Text) (e : VmdkError)
      → Hashed done
      → do_hash order deflate hasher open_path p ≡ err e
      → let out = map (line order deflate hasher open_path hex message) done in
        let main = main order deflate hasher open_path hex message in
        (main (paths done) ≡ some (record { stdout = out; stderr = []; code = success }))
        × (main (paths done ++ p ∷ later)
            ≡ some (record { stdout = out; stderr = message e ∷ []; code = failure }))
  unfolding main exit_of run
  main_lem done p later e h f = (
    ap (exit_of order deflate hasher open_path hex message) (
        ap (run order deflate hasher open_path) (sym (append-nil (paths done)))
        ∙ run_done done [] h
        ∙ ap (λ xs. (xs, ok tt)) (append-nil done)),
    ap (exit_of order deflate hasher open_path hex message) (
        run_done done (p ∷ later) h
        ∙ ap (behind done) (run_failed p later e f)
        ∙ ap (λ xs. (xs, err e)) (append-nil done)),
  )
