-- ===== src/Middleware/Unused.antt =====
-- pkg/middleware/logger.go and pkg/response/response.go, which nothing in the repository calls. The log
-- and the writer of the answer are parameters.
use chatter_stack.Base.{ℕ, String, cat}

-- The line of a request, and then the next handler.
unfoldable pub logger :
    {W R : Type 0} → (String → W → W) → (String → String → W → R × W) → String → String → W → R × W
logger printf next method path w = next method path (printf (cat method (cat " " path)) w)

-- The payload is not written.
unfoldable pub json : {W Payload : Type 0} → (ℕ → W → W) → ℕ → Payload → W → W
json write_header status payload w = write_header status w
