-- ===== src/Player/Sync/Neighbours.antt =====
-- The next and the previous item: getAdjacentPlaylistIndex of src/client/player/playback-sync.ts.
use web_sync_play.Prelude.{ℕ, ◌<◌, ◌≡◌, some, arith}
use web_sync_play.Room.State.{LoopMode}
use web_sync_play.Player.Sync.{Direction, previous, next, get_adjacent_playlist_index}

abbrev pub opposite : Direction → Direction
opposite previous = next
opposite next = previous

-- From an item of the playlist, a step to either side lands on an item of the playlist, and the step back
-- returns to the item.
pub adjacent_returns :
    (current total other : ℕ) (loop : LoopMode) (d : Direction)
    → current < total
    → get_adjacent_playlist_index current total loop d ≡ some other
    → (other < total) × (get_adjacent_playlist_index other total loop (opposite d) ≡ some current)
unfolding get_adjacent_playlist_index
adjacent_returns current total other loop previous h e = (ground arith, ground arith)
adjacent_returns current total other loop next h e = (ground arith, ground arith)
