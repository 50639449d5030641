-- ===== src/Request/Fresh.antt =====
-- What a request of src/request.c that is started again keeps of the one before.
use mongrel.Strings.{Strings}
use mongrel.Request.{Request}
