-- ===== src/Usecase.antt =====
-- internal/usecase: what stands between the handlers and the services. A use case holds its service
-- and nothing else, so each of its methods is an abbreviation of the service's.
pub mod AuthUseCase
pub mod UserUseCase
pub mod RoomUseCase
pub mod MessageUseCase
