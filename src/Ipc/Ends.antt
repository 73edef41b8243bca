-- ===== src/Ipc/Ends.antt =====
-- The channel ends of kernel/src/ipc.rs and their registry.
--
-- `ends` holds every end ever made, an `Arc<ChannelEnd>` being its index, and `registry` those that
-- still have an owner, which is what the weak references keep. Counters are numbers without a bound.
use nexo_os.Prelude.{
  ℕ, suc, ◌+◌, ◌-◌, Bool, true, false, List, [], ◌∷◌, ◌++◌, length, get_or, set, if◌then◌else◌,
}
use nexo_os.Ipc.Types.{Handle, channel}
use nexo_os.Ipc.Channel.{Channel, Side, first, second, create, close}

-- `ChannelEnd`: `inner` is the index of its channel.
pub record End : Type 0 where
  pub inner : ℕ
  pub side : Side
  pub pinned : Bool
  pub closed_by_me : Bool

pub record Ipc : Type 0 where
  pub channels : List Channel
  pub ends : List End
  pub registry : List ℕ
  pub live_ends : ℕ
  pub collected : ℕ
  pub inflight : ℕ
  pub generation : ℕ

-- What stands for an index past the end, which no `Arc` is: an end that is closed already.
abbrev pub no_end : End
no_end = record { inner = 0; side = first; pinned = false; closed_by_me = true }

abbrev pub end_at : Ipc → ℕ → End
end_at i e = get_or i.ends e no_end

abbrev pub channel_of : Ipc → ℕ → Channel
channel_of i e = get_or i.channels (end_at i e).inner create

-- `create_pair`: the two ends, both pinned.
unfoldable pub create_pair : Ipc → Ipc × ℕ × ℕ
create_pair i =
    let n = length i.ends in
    let c = length i.channels in
    (
      record i {
        channels = i.channels ++ (create ∷ []);
        ends =
            i.ends
            ++ (record { inner = c; side = first; pinned = true; closed_by_me = false }
                ∷ record { inner = c; side = second; pinned = true; closed_by_me = false }
                ∷ []);
        registry = i.registry ++ (n ∷ suc n ∷ []);
        live_ends = i.live_ends + 2;
      },
      n,
      suc n,
    )

-- What `HandleTable::insert` does first: an end that enters a table is no longer pinned.
unfoldable pub unpin : Ipc → Handle → Ipc
unpin i h = elim (h.object) [
  | channel e ↦ record i { ends = set i.ends e (record (end_at i e) { pinned = false }) }
  | _ ↦ i
]

-- `close` beyond its first call does nothing. The threads are those to unpark.
unfoldable pub close_end : Ipc → ℕ → Ipc × Bool × List ℕ
close_end i e =
    let (c, woken) = close (channel_of i e) (end_at i e).side in
    if (end_at i e).closed_by_me then (i, false, []) else (
      record i {
        channels = set i.channels (end_at i e).inner c;
        ends = set i.ends e (record (end_at i e) { closed_by_me = true });
        live_ends = i.live_ends - 1;
      },
      true,
      woken,
    )
