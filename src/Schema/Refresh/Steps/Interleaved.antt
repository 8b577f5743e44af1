-- ===== src/Schema/Refresh/Steps/Interleaved.antt =====
-- Refreshes of one region by several processes at the same time.
use mathlib.Core.List.{Memᴰ}
use ovh_cli.Prelude.{ℕ, zero, suc, String, List, [], ◌∷◌, ◌≡◌, ◌⊎◌, inl, inr, refl}
use ovh_cli.Prelude.Dict.{Dict}
use ovh_cli.Errors.{ok}
use ovh_cli.Platform.Disk.{IsAtomic}
use ovh_cli.Platform.Codec.{IsFaithful}
use ovh_cli.Schema.Raw.{IsReindenting}
use ovh_cli.Auth.Credentials.{Time}
use ovh_cli.Schema.Types.{Service}
use ovh_cli.Schema.World.{SchemaServices}
use ovh_cli.Schema.Querier.{CachedQuerier}
use ovh_cli.Schema.Cache.{open_cache_at}
use ovh_cli.Schema.Cache.Laws.{open_cache_at_sound}
use ovh_cli.Schema.Refresh.Writes.{IsLaidOut}
use ovh_cli.Schema.Refresh.Serving.{Serves, Serves-opens}
use ovh_cli.Schema.Refresh.Attempts.{Attempt, HasFetched, nonempty}
use ovh_cli.Schema.Refresh.Steps.{Process, starting, advance}
use ovh_cli.Schema.Refresh.Steps.Sound.{IsSound, advance-Open}

-- The processes, each with what its servers answer.
abbrev pub Pool : Type 1
Pool = List (Attempt × Process)

abbrev pub started : List Attempt → Pool
started [] = []
started (a ∷ rest) = (a, starting) ∷ started rest

module _ (S : SchemaServices) (path region : String) where
  open S use {disk, meta_json, space_json}

  -- One step of the process of that number.
  unfoldable pub advance_at : ℕ → Pool → disk.State → Pool × disk.State
  advance_at i [] s = ([], s)
  advance_at zero ((a, p) ∷ rest) s =
      let (p', s') = advance S path region a p s in ((a, p') ∷ rest, s')
  advance_at (suc i) (x ∷ rest) s = let (rest', s') = advance_at i rest s in (x ∷ rest', s')

  -- The steps of the processes in an order.
  unfoldable pub interleave : List ℕ → Pool → disk.State → Pool × disk.State
  interleave [] pool s = (pool, s)
  interleave (i ∷ order) pool s = let (pool', s') = advance_at i pool s in interleave order pool' s'

  module _ {ℓ} (A : IsAtomic disk) (F : IsFaithful meta_json)
      (G : IsReindenting space_json S.reindent) (out : IsLaidOut S path)
      (Q : Dict Service → Type ℓ) where
    abbrev Open : disk.State → Type ℓ
    Open = Serves S path region Q

    -- Every process of the pool is sound, and its servers give services of the kind.
    abbrev AreSound : Pool → Type ℓ
    AreSound [] = Unit
    AreSound ((a, p) ∷ rest) =
        ((d : Dict Service) → HasFetched S path region a d → Q d)
        × IsSound S path region A F G out Q p
        × AreSound rest

    advance_at-Open :
        (i : ℕ) (pool : Pool) (s : disk.State)
        → AreSound pool
        → Open s
        → Open (advance_at i pool s).1 × AreSound (advance_at i pool s).0
    unfolding advance_at
    advance_at-Open i [] s c h = (h, tt)
    advance_at-Open zero ((a, p) ∷ rest) s (f, c, cs) h =
        let (h', c') = advance-Open S path region A F G out Q a p s f c h in (h', (f, c', cs))
    advance_at-Open (suc i) ((a, p) ∷ rest) s (f, c, cs) h =
        let (h', cs') = advance_at-Open i rest s cs h in (h', (f, c, cs'))

    interleave-Open :
        (order : List ℕ) (pool : Pool) (s : disk.State)
        → AreSound pool
        → Open s
        → Open (interleave order pool s).1
    unfolding interleave
    interleave-Open [] pool s c h = h
    interleave-Open (i ∷ order) pool s c h =
        let (h', c') = advance_at-Open i pool s c h in interleave-Open order _ _ c' h'

    started-AreSound :
        (attempts : List Attempt)
        → ((a : Attempt) (d : Dict Service) → Memᴰ a attempts → HasFetched S path region a d → Q d)
        → AreSound (started attempts)
    started-AreSound [] f = tt
    started-AreSound (a ∷ rest) f =
        (λ d. f a d (Memᴰ.head refl), tt, started-AreSound rest λ b d m. f b d (Memᴰ.tail m))

  module _ (A : IsAtomic disk) (F : IsFaithful meta_json) (G : IsReindenting space_json S.reindent)
      (out : IsLaidOut S path) where
    -- A cache that opens for a region opens at every moment while any number of processes refresh it
    -- at the same time, whose reads and writes come in any order and may fail. It then answers from
    -- the services that it held before, or from services that the server gave to one of the
    -- refreshes, their raw JSON laid out as the encoder does.
    pub interleave-opens :
        (attempts : List Attempt) (order : List ℕ) (s : disk.State) (now later : Time)
        (q : CachedQuerier)
        → open_cache_at S s path region now ≡ ok q
        → (q' : CachedQuerier) × (open_cache_at S
              (interleave order (started attempts) s).1
              path
              region
              later
            ≡ ok q')
          × ((q'.services ≡ q.services)
              ⊎ ((a : Attempt) × Memᴰ a attempts × HasFetched S path region a q'.services))
    interleave-opens attempts order s now later q h =
        let (private, v, r, head, description, _) = open_cache_at_sound S s path region now q h in
        Serves-opens S path region _ _ later (nonempty S path region s now q h) (
          interleave-Open A F G out
            (λ d.
              (d ≡ q.services) ⊎ ((a : Attempt) × Memᴰ a attempts × HasFetched S path region a d))
            order (started attempts) s
            (started-AreSound A F G out _ attempts λ a d e f. inr (a, e, f))
            (q.services, inl refl, (private, (q.meta, v, r, head), description)))
