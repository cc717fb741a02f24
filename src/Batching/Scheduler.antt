-- ===== src/Batching/Scheduler.antt =====
-- src/pipeline/BatchScheduler.cpp: the loop that collects frames and sends batches.
--
-- A round of the loop takes from outside the times that the clock gives, the active streams of the pool with
-- their models, and what the buffer of a stream gives. Times are in microseconds.
use inference_server.Shared.{
  ℕ, ◌+◌, Bool, false, not, ◌&&◌, ◌||◌, String, List, [], ◌∷◌, ◌++◌, Option, none, some, str_eq,
  if◌then◌else◌, leb, any, ◌-◌,
}
use inference_server.Shared.Int.{ℤ, pos, negsuc}
use inference_server.Config.{ModelConfig}
use inference_server.Batching.{
  Frame, Batch, empty_batch, size, is_empty, int_geq, is_mismatch, add_frame,
}

-- What a stream's buffer gives: the pool has none, it is empty, or it gives its oldest frame.
pub data Poll (X : Type 0) : Type 0 where
  no_buffer : Poll X
  nothing : Poll X
  pops : Frame X → Poll X

-- `std::sort` with `std::greater`.
unfoldable pub insert_desc : ℤ → List ℤ → List ℤ
insert_desc n [] = n ∷ []
insert_desc n (k ∷ ks) = if int_geq n k then n ∷ k ∷ ks else k ∷ insert_desc n ks

unfoldable pub sort_desc : List ℤ → List ℤ
sort_desc [] = []
sort_desc (n ∷ ns) = insert_desc n (sort_desc ns)

-- `preferred`, and its front.
unfoldable pub preferred_sizes : ModelConfig → List ℤ
preferred_sizes cfg =
    if is_empty cfg.preferred_batch_sizes
    then cfg.batch_size ∷ []
    else sort_desc cfg.preferred_batch_sizes

abbrev pub front : List ℤ → ℤ
front [] = pos 0
front (n ∷ ns) = n

abbrev pub max_bs : ModelConfig → ℤ
max_bs cfg = front (preferred_sizes cfg)

-- A time plus an `int` of microseconds.
abbrev pub add_delay : ℕ → ℤ → ℕ
add_delay t (pos n) = t + n
add_delay t (negsuc n) = t - (n + 1)

pub record Round (X : Type 0) : Type 0 where
  pub now : ℕ
  pub active_streams : List (String × String)
  pub poll : String → Poll X
  pub checked : ℕ
  pub restarted : ℕ

pub record Loop (X : Type 0) : Type 0 where
  pub batch : Batch X
  pub deadline : ℕ
  pub stream_refresh_deadline : ℕ
  pub model_streams : List String

-- The streams of the model.
unfoldable pub streams_of : String → List (String × String) → List String
streams_of id [] = []
streams_of id ((sid, model_id) ∷ rest) =
    if str_eq model_id id then sid ∷ streams_of id rest else streams_of id rest

module _ {X : Type 0} where
  unfoldable pub refresh : String → Round X → Loop X → Loop X
  refresh id r l =
      if leb l.stream_refresh_deadline r.now || is_empty l.model_streams
      then record l {
        model_streams = streams_of id r.active_streams;
        stream_refresh_deadline = r.now + 200000;
      }
      else l

  module _ (id : String) (bound : ℤ) where
    -- The batch after a visit, and whether it leaves the loop.
    unfoldable pub visit : Batch X → Poll X → Batch X × Bool
    visit b no_buffer = (b, false)
    visit b nothing = (b, int_geq (size b) bound)
    visit b (pops f) =
        let b' = add_frame id b f in
        if is_mismatch b f then (b, false) else (b', int_geq (size b') bound)

    -- The visits of the streams, until the batch is full.
    unfoldable pub collect : (String → Poll X) → Batch X → List String → Batch X
    collect poll b [] = b
    collect poll b (sid ∷ sids) =
        let (b', full) = visit b (poll sid) in
        let rest = collect poll b' sids in if full then b' else rest

  -- A batch is sent when it reaches any of the sizes, or late.
  unfoldable pub should_flush : List ℤ → Bool → Batch X → Bool
  should_flush preferred timeout b =
      not (is_empty b.metas) && (any (λ target. int_geq (size b) target) preferred || timeout)

  -- The end of a round: the batch that is sent, and the loop's state.
  unfoldable pub finish : ModelConfig → Round X → Loop X → Option (Batch X) × Loop X
  finish cfg r l =
      let timeout = leb l.deadline r.checked in
      let next = add_delay r.restarted cfg.max_queue_delay_us in
      if should_flush (preferred_sizes cfg) timeout l.batch
      then (some l.batch, record l { batch = empty_batch; deadline = next })
      else if is_empty l.batch.metas
      then (none, if timeout then record l { deadline = next } else l)
      else (none, l)

  unfoldable pub round : ModelConfig → Round X → Loop X → Option (Batch X) × Loop X
  round cfg r l =
      let l' = refresh cfg.id r l in
      finish cfg r
        (record l' { batch = collect cfg.id (max_bs cfg) r.poll l'.batch l'.model_streams })

  abbrev pub sent : Option (Batch X) → List (Batch X)
  sent none = []
  sent (some b) = b ∷ []

  -- The batches that the callback gets in a number of rounds, and the loop's state after them.
  unfoldable pub schedule_loop : ModelConfig → List (Round X) → Loop X → List (Batch X) × Loop X
  schedule_loop cfg [] l = ([], l)
  schedule_loop cfg (r ∷ rs) l =
      let (o, l') = round cfg r l in let (bs, l'') = schedule_loop cfg rs l' in (sent o ++ bs, l'')

  -- The state before the first round.
  abbrev pub initial : ModelConfig → ℕ → Loop X
  initial cfg now = record {
    batch = empty_batch;
    deadline = add_delay now cfg.max_queue_delay_us;
    stream_refresh_deadline = now;
    model_streams = [];
  }
