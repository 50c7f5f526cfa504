-- ===== src/Tests/Likes.antt =====
-- A reaction on a small forum.
use ferum_board.Domain.Event.{helpful}
use ferum_board.Exec.{World}
use ferum_board.Social.{add}
use ferum_board.Tests.Data.{morgan, quiet, start}

abbrev liked : World
liked = (add morgan 20 helpful quiet start).1
