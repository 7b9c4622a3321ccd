-- ===== src/Room/Playlist/Tests.antt =====
-- The theorems on src/server/realtime/services/playlist-ops.ts, applied to concrete rooms, people and messages.
use web_sync_play.Room.Playlist.{apply_playlist_reorder, apply_playlist_remove}
use web_sync_play.Room.Timeline.{media_id_at}
use web_sync_play.Prelude.{or_else, refl, arith, ◌≡◌, some}
use web_sync_play.Room.Samples.{shared_file, cinema}
use web_sync_play.Room.Playlist.Current.{reorder_keeps_current, remove_keeps_current}

reorder_keeps_current_example :
    media_id_at
      ((or_else (apply_playlist_reorder cinema 0 2) (cinema, shared_file)).0).playlist
      ((or_else (apply_playlist_reorder cinema 0 2) (cinema, shared_file)).0).current_index
    ≡ some "b"
unfolding apply_playlist_reorder
reorder_keeps_current_example =
    reorder_keeps_current cinema
      ((or_else (apply_playlist_reorder cinema 0 2) (cinema, shared_file)).0) 0 2
      ((or_else (apply_playlist_reorder cinema 0 2) (cinema, shared_file)).1) "b" refl refl refl

remove_keeps_current_example :
    media_id_at
      ((or_else (apply_playlist_remove cinema "a" 100000) (cinema, shared_file, 0)).0).playlist
      ((or_else (apply_playlist_remove cinema "a" 100000) (cinema, shared_file, 0)).0).current_index
    ≡ some "b"
unfolding apply_playlist_remove
remove_keeps_current_example =
    remove_keeps_current cinema
      ((or_else (apply_playlist_remove cinema "a" 100000) (cinema, shared_file, 0)).0) "a" 100000
      ((or_else (apply_playlist_remove cinema "a" 100000) (cinema, shared_file, 0)).2)
      ((or_else (apply_playlist_remove cinema "a" 100000) (cinema, shared_file, 0)).1) "b" refl refl
      (λ e. ground arith)
